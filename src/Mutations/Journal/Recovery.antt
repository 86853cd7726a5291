-- ===== src/Mutations/Journal/Recovery.antt =====
-- A start of packages/core/src/mutations/mutationService.ts with transactions that were left open,
-- on a whole file and behind a cut-off line.
use kross.Base.{
  some_inj, subst, ◌≡◌, refl, some, List, [], ◌∷◌, ◌++◌, String, String-discrete, arith, true,
  false, sym, ◌∙◌, ap, subst,
}
use kross.Base.Maps.{Map, set, delete, values, Absent, Distinct, set-Distinct, delete-Distinct}
use kross.Mutations.Journal.{
  PreparedMutation, Event, prepared, committed, rolled_back, undone, Line, blank, malformed,
  unsupported, unknown, event, File, State, empty, load_event, load_lines, load, append, Journal,
  append_rolled_back, list_incomplete, recover, start,
}
use kross.Mutations.Journal.Reload.{IsSynced, append-IsSynced}

-- Each pending mutation stands under its own transaction's id.
abbrev Keyed : Map String PreparedMutation → Type 0
Keyed [] = Unit
Keyed ((id, m) ∷ ms) = (id ≡ m.transaction_id) × Keyed ms

pub record IsKeyed (s : State) : Type 0 where
  pub keyed : Keyed s.pending
  pub distinct : Distinct s.pending

set-Keyed :
    (m : PreparedMutation) (ms : Map String PreparedMutation)
    → Keyed ms
    → Keyed (set String-discrete m.transaction_id m ms)
unfolding set
set-Keyed m [] k = (refl, tt)
set-Keyed m ((id, x) ∷ ms) k = ground (arith, set-Keyed m ms)

delete-Keyed :
    (id : String) (ms : Map String PreparedMutation)
    → Keyed ms
    → Keyed (delete String-discrete id ms)
unfolding delete
delete-Keyed id [] k = tt
delete-Keyed id ((j, x) ∷ ms) k = ground (arith, delete-Keyed id ms)

load_event-IsKeyed : (e : Event) (s : State) → IsKeyed s → IsKeyed (load_event e s)
unfolding load_event
load_event-IsKeyed (prepared m) s v = record {
  keyed = set-Keyed m s.pending v.keyed;
  distinct = set-Distinct String-discrete m.transaction_id m s.pending v.distinct;
}
load_event-IsKeyed (committed id post) s v =
    ground (arith, delete-Keyed id s.pending, delete-Distinct String-discrete id s.pending)
load_event-IsKeyed (rolled_back id reason) s v = record {
  keyed = delete-Keyed id s.pending v.keyed;
  distinct = delete-Distinct String-discrete id s.pending v.distinct;
}
load_event-IsKeyed (undone id now) s v = record { keyed = v.keyed; distinct = v.distinct }

load_lines-IsKeyed :
    (lines : List Line) (s : State) {t : State}
    → IsKeyed s
    → load_lines lines s ≡ some t
    → IsKeyed t
unfolding load_lines
load_lines-IsKeyed [] s v h = subst IsKeyed (some_inj h) v
load_lines-IsKeyed (blank ∷ lines) s v h = load_lines-IsKeyed lines s v h
load_lines-IsKeyed (malformed ∷ lines) s v h = load_lines-IsKeyed lines s v h
load_lines-IsKeyed (unsupported ∷ lines) s v h = cc
load_lines-IsKeyed (unknown ∷ lines) s v h = load_lines-IsKeyed lines s v h
load_lines-IsKeyed (event e ∷ lines) s v h =
    load_lines-IsKeyed lines (load_event e s) (load_event-IsKeyed e s v) h

load-IsKeyed : (disk : File) (s : State) → load disk ≡ some s → IsKeyed s
unfolding load
load-IsKeyed disk s = load_lines-IsKeyed disk.lines empty (record { keyed = tt; distinct = tt })

delete-Absent :
    (id : String) (ms : Map String PreparedMutation)
    → Absent id ms
    → delete String-discrete id ms ≡ ms
unfolding delete
delete-Absent id [] a = refl
delete-Absent id ((j, m) ∷ ms) a = ground (arith, delete-Absent id ms)

recover-IsSynced : (ms : List PreparedMutation) (j : Journal) → IsSynced j → IsSynced (recover ms j)
unfolding recover append_rolled_back load_event
recover-IsSynced [] j v = v
recover-IsSynced (m ∷ ms) j v =
    recover-IsSynced ms (append_rolled_back m.transaction_id "recovered-incomplete" j)
      (append-IsSynced (rolled_back m.transaction_id "recovered-incomplete") j _ refl v)

delete_head :
    (id tid : String) (m : PreparedMutation) (ms : Map String PreparedMutation)
    → id ≡ tid
    → Absent id ms
    → delete String-discrete tid ((id, m) ∷ ms) ≡ ms
unfolding delete
delete_head id tid m ms e a = ground (arith, delete-Absent tid ms)

-- The rollbacks empty the map of pending mutations.
recover-pending :
    (ms : Map String PreparedMutation) (j : Journal)
    → j.state.pending ≡ ms
    → Keyed ms
    → Distinct ms
    → (recover (values ms) j).state.pending ≡ []
unfolding recover append_rolled_back load_event
recover-pending [] j e k d = e
recover-pending ((id, m) ∷ ms) j e k d =
    recover-pending ms (append_rolled_back m.transaction_id "recovered-incomplete" j)
      (ap (delete String-discrete m.transaction_id) e
        ∙ delete_head id m.transaction_id m ms k.0 d.0)
      k.1 d.1

start_cases :
    (disk : File) {j : Journal} {restored : List PreparedMutation}
    → start disk ≡ some (j, restored)
    → (s : State) × (load disk ≡ some s)
      × (j ≡ recover (list_incomplete s) (record { file = disk; state = s }))
      × (restored ≡ list_incomplete s)
unfolding start
start_cases disk h = ground arith

start_loaded :
    (disk : File) (s : State)
    → load disk ≡ some s
    → start disk
      ≡ some (recover (list_incomplete s) (record { file = disk; state = s }), list_incomplete s)
unfolding start
start_loaded disk s h = ground arith

start_idle : (j : Journal) → IsSynced j → j.state.pending ≡ [] → start j.file ≡ some (j, [])
unfolding list_incomplete recover
start_idle j v p =
    start_loaded j.file j.state v.told
    ∙ ap (λ (ms : List PreparedMutation). some (recover ms j, ms)) (ap values p)

-- If a file has no cut-off last line and a start of the mutation service succeeds on it, then a
-- second start on the file that the first one left succeeds, restores nothing, and leaves the same
-- journal.
pub start_twice :
    (disk : File) {j : Journal} {restored : List PreparedMutation}
    → disk.torn ≡ false
    → start disk ≡ some (j, restored)
    → start j.file ≡ some (j, [])
unfolding list_incomplete
start_twice disk w h =
    let (s, l, e, r) = start_cases disk h in
    let v = load-IsKeyed disk s l in
    let j : Journal = record { file = disk; state = s } in
    let synced : IsSynced j = record { whole = w; told = l } in
    subst (λ k. start k.file ≡ some (k, [])) (sym e)
      (start_idle _ (recover-IsSynced (list_incomplete s) j synced)
        (recover-pending s.pending j refl v.keyed v.distinct))

load_lines-malformed :
    (lines : List Line) (s : State) → load_lines (lines ++ malformed ∷ []) s ≡ load_lines lines s
unfolding load_lines
load_lines-malformed [] s = refl
load_lines-malformed (blank ∷ lines) s = load_lines-malformed lines s
load_lines-malformed (malformed ∷ lines) s = load_lines-malformed lines s
load_lines-malformed (unsupported ∷ lines) s = refl
load_lines-malformed (unknown ∷ lines) s = load_lines-malformed lines s
load_lines-malformed (event e ∷ lines) s = load_lines-malformed lines (load_event e s)

-- An event that is appended behind a cut-off line is lost.
load-append_torn : (e : Event) (disk : File) → disk.torn ≡ true → load (append e disk) ≡ load disk
unfolding load append
load-append_torn e disk t = rw t (load_lines-malformed disk.lines empty)

start_again :
    (disk : File) (s : State) (m : PreparedMutation)
    → disk.torn ≡ true
    → load disk ≡ some s
    → list_incomplete s ≡ m ∷ []
    → let j = recover (m ∷ []) (record { file = disk; state = s }) in
      (k : Journal) × (start j.file ≡ some (k, m ∷ []))
unfolding recover append_rolled_back
start_again disk s m t l q = (
  _,
  start_loaded (append (rolled_back m.transaction_id "recovered-incomplete") disk) s
        (load-append_torn _ disk t ∙ l)
      ∙ ap
          (λ ms. some (
            recover (list_incomplete s) (record {
              file = append (rolled_back m.transaction_id "recovered-incomplete") disk;
              state = s;
            }),
            ms,
          ))
          q,
)

-- If the last line of a file was cut off and a start of the mutation service restores one
-- transaction, then the next start restores the same transaction again.
pub start_torn_restores_again :
    (disk : File) {j : Journal} (m : PreparedMutation)
    → disk.torn ≡ true
    → start disk ≡ some (j, m ∷ [])
    → (k : Journal) × (start j.file ≡ some (k, m ∷ []))
start_torn_restores_again disk m t h =
    let (s, l, e, r) = start_cases disk h in
    subst (λ (x : Journal). (k : Journal) × (start x.file ≡ some (k, m ∷ [])))
      (ap (λ ms. recover ms (record { file = disk; state = s })) r ∙ sym e)
      (start_again disk s m t l (sym r))
