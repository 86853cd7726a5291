-- ===== src/Session/Todo/Laws.antt =====
-- `write` of packages/core/src/todo/todoStore.ts and the items of the list.
use kross.Base.{
  ◌⊎◌, subst, Bool-cases, inl, inr, ◌+◌, ◌≡◌, refl, Bool, Option, none, some, List, [], ◌∷◌, String,
  arith, text_eq, text_eq_iff, String-discrete, length, if◌then◌else◌, ap, sym, ◌∙◌,
}
use kross.Base.Maps.{Map, get, set, values, Distinct, set-Distinct, get-set}
use kross.Session.Todo.{
  Result, err, Error, TodoStatus, Snapshot, TodoWriteInput, normalize_all, write, merges, ok,
  TodoItem, Counts, count_status, count_all, no_counts, snapshot, set_items, dedupe_by_id,
  merge_items, find_item, by_id,
}

-- Each item stands under its own id.
abbrev Keyed : Map String TodoItem → Type 0
Keyed [] = Unit
Keyed ((id, t) ∷ m) = (id ≡ t.id) × Keyed m

set-Keyed :
    (t : TodoItem) (m : Map String TodoItem) → Keyed m → Keyed (set String-discrete t.id t m)
unfolding set
set-Keyed t [] k = (refl, tt)
set-Keyed t ((id, u) ∷ m) k = ground (arith, set-Keyed t m)

set_items-Keyed : (ts : List TodoItem) (m : Map String TodoItem) → Keyed m → Keyed (set_items ts m)
unfolding set_items
set_items-Keyed [] m k = k
set_items-Keyed (t ∷ ts) m k = set_items-Keyed ts _ (set-Keyed t m k)

set_items-Distinct :
    (ts : List TodoItem) (m : Map String TodoItem) → Distinct m → Distinct (set_items ts m)
unfolding set_items
set_items-Distinct [] m d = d
set_items-Distinct (t ∷ ts) m d = set_items-Distinct ts _ (set-Distinct String-discrete t.id t m d)

find_item-values :
    (id : String) (m : Map String TodoItem)
    → Keyed m
    → find_item id (values m) ≡ get String-discrete id m
unfolding find_item get
find_item-values id [] k = refl
find_item-values id ((j, t) ∷ m) k = ground (arith, find_item-values id m k.1, text_eq_iff t.id id)

-- The last of the items with the id, and otherwise the given one.
abbrev last_or : String → List TodoItem → Option TodoItem → Option TodoItem
last_or id [] o = o
last_or id (t ∷ ts) o = last_or id ts (if text_eq t.id id then some t else o)

get-set_items :
    (id : String) (ts : List TodoItem) (m : Map String TodoItem)
    → get String-discrete id (set_items ts m) ≡ last_or id ts (get String-discrete id m)
unfolding set_items
get-set_items id [] m = refl
get-set_items id (t ∷ ts) m =
    get-set_items id ts (set String-discrete t.id t m)
    ∙ ap (last_or id ts) (ground (arith, get-set String-discrete t.id id t m, text_eq_iff t.id id))

by_id-values : (m : Map String TodoItem) → Keyed m → by_id (values m) ≡ m
by_id-values [] k = refl
by_id-values ((id, t) ∷ m) k = ground (arith, by_id-values m k.1)

count_status-total :
    (st : TodoStatus) (c : Counts)
    → let d = count_status st c in
      d.pending + d.in_progress + d.completed + d.cancelled
      ≡ 1 + (c.pending + c.in_progress + c.completed + c.cancelled)
unfolding count_status
count_status-total st c = ground arith

count_all-total :
    (ts : List TodoItem) (c : Counts)
    → let d = count_all ts c in
      d.pending + d.in_progress + d.completed + d.cancelled
      ≡ length ts + (c.pending + c.in_progress + c.completed + c.cancelled)
unfolding count_all
count_all-total [] c = omega arith
count_all-total (t ∷ ts) c = omega (arith, count_all-total ts (count_status t.status c), one)
  where
    one :
        let d = count_status t.status c in
        d.pending + d.in_progress + d.completed + d.cancelled
        ≡ 1 + (c.pending + c.in_progress + c.completed + c.cancelled)
    one = count_status-total t.status c

-- What the store holds after a write of `incoming` over `before`, which is empty where the list is
-- replaced.
pub record Holds (before incoming after : List TodoItem) : Type 0 where
  pub found : (id : String) → find_item id after ≡ last_or id incoming (last_or id before none)
  pub distinct : Distinct (by_id after)

values-Holds :
    (before incoming : List TodoItem) (m : Map String TodoItem)
    → m ≡ set_items incoming (set_items before [])
    → Holds before incoming (values m)
unfolding get
values-Holds before incoming m e = record {
  found = λ id.
      find_item-values id m keyed
      ∙ ap (get String-discrete id) e
      ∙ get-set_items id incoming (set_items before [])
      ∙ ap (last_or id incoming) (get-set_items id before []);
  distinct =
      subst Distinct (sym (by_id-values m keyed))
        (subst Distinct (sym e) (set_items-Distinct incoming _ (set_items-Distinct before [] tt)));
}
  where
    keyed : Keyed m
    keyed = subst Keyed (sym e) (set_items-Keyed incoming _ (set_items-Keyed before [] tt))

-- The list that a write works over.
abbrev base : Option Bool → List TodoItem → List TodoItem
base merge items = if merges merge then items else []

new_items-Holds :
    (merge : Option Bool) (items incoming : List TodoItem)
    → Holds
        (base merge items)
        incoming
        (if merges merge then merge_items items incoming else dedupe_by_id incoming)
unfolding merge_items dedupe_by_id set_items
new_items-Holds merge items incoming = elim (Bool-cases (merges merge)) [
  | inl e ↦ rw e (values-Holds items incoming _ refl)
  | inr e ↦ rw e (values-Holds [] incoming _ refl)
]

Result-cases :
    (r : Result (List TodoItem))
    → ((ts : List TodoItem) × (r ≡ ok ts)) ⊎ ((e : Error) × (r ≡ err e))
Result-cases (ok ts) = inl (ts, refl)
Result-cases (err e) = inr (e, refl)

ok_inj {ℓ} : {A : Type ℓ} {a b : A} → ok a ≡ ok b → a ≡ b
ok_inj h = cc

-- What the caller of a write is told, with the new list.
pub record Written (trim : String → String) (input : TodoWriteInput) (items : List TodoItem)
    (w : List TodoItem × Snapshot) : Type 0 where
  pub incoming : List TodoItem
  pub normalised : normalize_all trim input.todos ≡ ok incoming
  pub holds : Holds (base input.merge items) incoming w.0
  pub told : w.1.todos ≡ w.0
  pub counted :
      w.1.counts.pending + w.1.counts.in_progress + w.1.counts.completed + w.1.counts.cancelled
      ≡ length w.0

-- If a write of the todo list succeeds, then all items of the input normalise; the new list holds
-- under each id the last normalised item of the input with that id, or else, where the write
-- merges, the item that was there; no id occurs twice; and the snapshot holds the list, with counts
-- that add up to its length.
pub write-Written :
    (trim : String → String) (input : TodoWriteInput) (items : List TodoItem)
    (w : List TodoItem × Snapshot)
    → write trim input items ≡ ok w
    → Written trim input items w
unfolding write snapshot
write-Written trim input items w h = elim (Result-cases (normalize_all trim input.todos)) [
  | inr (e, q) ↦ cc (rw (q, write) at h)
  | inl (ts, q) ↦ subst (Written trim input items) (ok_inj (rw (q, write) at h)) (record {
    incoming = ts;
    normalised = q;
    holds = new_items-Holds input.merge items ts;
    told = refl;
    counted = omega (arith, count_all-total _ no_counts);
  })
]
