-- ===== src/Mutations/Journal/Reload.antt =====
-- The writing methods of packages/core/src/mutations/mutationJournal.ts and its `load`.
use kross.Base.{
  Option-cases, String-discrete, inl, inr, ◌≡◌, refl, false, Option, none, some, List, [], ◌∷◌,
  ◌++◌, String, ℕ, arith,
}
use kross.Base.Maps.{get}
use kross.Mutations.Journal.{
  committed, prepared, rolled_back, undone, PreparedMutation, RootSnapshot, Event, Line, blank,
  malformed, unsupported, unknown, event, State, empty, load_event, load_lines, load, append,
  Journal, append_prepared, append_committed, append_rolled_back, append_undone, MutationRecord,
}

-- One call of a method that writes.
pub data Call : Type 0 where
  prepare : PreparedMutation → Call
  commit : String → List RootSnapshot → Call
  roll_back : String → String → Call
  undo : String → ℕ → Call

abbrev after : Journal → Option (Journal × MutationRecord) → Journal
after j none = j
after j (some (k, r)) = k

-- A call that throws leaves the journal as it was.
perform : Call → Journal → Journal
unfolding append_prepared append_committed append_rolled_back append_undone
perform (prepare m) j = append_prepared m j
perform (commit id post) j = after j (append_committed id post j)
perform (roll_back id reason) j = append_rolled_back id reason j
perform (undo id now) j = append_undone id now j

pub perform_all : List Call → Journal → Journal
perform_all [] j = j
perform_all (c ∷ cs) j = perform_all cs (perform c j)

-- The file is whole and tells the maps.
pub record IsSynced (j : Journal) : Type 0 where
  pub whole : j.file.torn ≡ false
  pub told : load j.file ≡ some j.state

load_lines-append :
    (lines : List Line) (e : Event) (s t : State)
    → load_lines lines s ≡ some t
    → load_lines (lines ++ event e ∷ []) s ≡ some (load_event e t)
unfolding load_lines
load_lines-append [] e s t h = ground arith
load_lines-append (blank ∷ lines) e s t h = load_lines-append lines e s t h
load_lines-append (malformed ∷ lines) e s t h = load_lines-append lines e s t h
load_lines-append (unsupported ∷ lines) e s t h = cc
load_lines-append (unknown ∷ lines) e s t h = load_lines-append lines e s t h
load_lines-append (event d ∷ lines) e s t h = load_lines-append lines e (load_event d s) t h

-- A method that writes an event keeps the file and the maps in step, where it changes the maps as
-- `load` does.
pub append-IsSynced :
    (e : Event) (j : Journal) (s : State)
    → load_event e j.state ≡ s
    → IsSynced j
    → IsSynced (record { file = append e j.file; state = s })
unfolding append load
append-IsSynced e j s h v = record {
  whole = refl;
  told = ground (arith, load_lines-append j.file.lines e empty j.state v.told, h);
}

-- Each writing method keeps the file and the maps in step.
perform-IsSynced : (c : Call) (j : Journal) → IsSynced j → IsSynced (perform c j)
unfolding perform append_prepared append_committed append_rolled_back append_undone load_event
perform-IsSynced (prepare m) j v = append-IsSynced (prepared m) j _ refl v
perform-IsSynced (commit id post) j v =
    elim (Option-cases (get String-discrete id j.state.pending)) [
      | inl e ↦ rw (e, perform, append_committed) v
      | inr (m, e) ↦
          rw (e, perform, append_committed)
            (append-IsSynced (committed id post) j _ (rw (e, load_event) refl) v)
    ]
perform-IsSynced (roll_back id reason) j v = append-IsSynced (rolled_back id reason) j _ refl v
perform-IsSynced (undo id now) j v = append-IsSynced (undone id now) j _ refl v

-- If the file of a journal is whole and loads to the maps in memory, then after any list of calls
-- of the four writing methods the file still loads to exactly the maps in memory.
pub perform_all-reload :
    (cs : List Call) (j : Journal)
    → IsSynced j
    → load (perform_all cs j).file ≡ some (perform_all cs j).state
unfolding perform_all
perform_all-reload [] j v = v.told
perform_all-reload (c ∷ cs) j v = perform_all-reload cs (perform c j) (perform-IsSynced c j v)
