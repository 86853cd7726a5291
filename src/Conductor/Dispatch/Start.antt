-- ===== src/Conductor/Dispatch/Start.antt =====
-- The tasks that the loop of `conductorExecutePhase` in packages/core/src/runtime/modeFlows.ts
-- begins with: the values of `new Map(plan.tasks.map((task) => [task.id, task]))`.
use kross.Base.{
  All, String-discrete, suc, ◌+◌, ◌≤◌, String, ◌≡◌, refl, sym, if_pos, true, false, some, List, [],
  ◌∷◌, arith, length, text_eq_iff,
}
use kross.Base.Maps.{Map, keys, values, Absent, Distinct, get, set, set-Distinct, get_of_Absent}
use kross.Conductor.Plan.{Task, has, index_tasks, is_known, ids_of}
use kross.Conductor.Plan.Cycles.{has_of_All}
use kross.Conductor.Plan.Decides.{ids-known}

-- Each task stands under its own id.
abbrev Keyed : Map String Task → Type 0
Keyed [] = Unit
Keyed ((k, t) ∷ m) = (t.id ≡ k) × Keyed m

-- No id stands twice.
abbrev pub Apart : List String → Type 0
Apart [] = Unit
Apart (x ∷ xs) = (has x xs ≡ false) × Apart xs

set-Keyed : (t : Task) (m : Map String Task) → Keyed m → Keyed (set String-discrete t.id t m)
unfolding set
set-Keyed t [] h = (refl, tt)
set-Keyed t ((k, u) ∷ m) h = ground (arith, set-Keyed t m h.1, h.0)

length-values_le :
    (id : String) (t : Task) (m : Map String Task)
    → length (values (set String-discrete id t m)) ≤ suc (length (values m))
unfolding set
length-values_le id t [] = omega arith
length-values_le id t ((k, u) ∷ m) = ground (arith, length-values_le id t m)

index_tasks-Keyed : (ts : List Task) (m : Map String Task) → Keyed m → Keyed (index_tasks ts m)
unfolding index_tasks
index_tasks-Keyed [] m h = h
index_tasks-Keyed (t ∷ ts) m h =
    index_tasks-Keyed ts (set String-discrete t.id t m) (set-Keyed t m h)

index_tasks-Distinct :
    (ts : List Task) (m : Map String Task) → Distinct m → Distinct (index_tasks ts m)
unfolding index_tasks
index_tasks-Distinct [] m h = h
index_tasks-Distinct (t ∷ ts) m h =
    index_tasks-Distinct ts (set String-discrete t.id t m) (set-Distinct String-discrete t.id t m h)

length-index_tasks_le :
    (ts : List Task) (m : Map String Task)
    → length (values (index_tasks ts m)) ≤ length (values m) + length ts
unfolding index_tasks
length-index_tasks_le [] m = omega arith
length-index_tasks_le (t ∷ ts) m =
    omega
      (arith, length-index_tasks_le ts (set String-discrete t.id t m), length-values_le t.id t m)

-- The ids of the values are the keys.
ids_of-values : (m : Map String Task) → Keyed m → ids_of (values m) ≡ keys m
ids_of-values [] h = refl
ids_of-values ((k, t) ∷ m) h = rw (h.0, ids_of-values m h.1) refl

has-keys-Absent : (x : String) (m : Map String Task) → Absent x m → has x (keys m) ≡ false
unfolding has
has-keys-Absent x [] h = refl
has-keys-Absent x ((k, t) ∷ m) h = ground (arith, has-keys-Absent x m h.1, text_eq_iff x k)

keys-Apart : (m : Map String Task) → Distinct m → Apart (keys m)
keys-Apart [] h = tt
keys-Apart ((k, t) ∷ m) h = (has-keys-Absent k m h.0, keys-Apart m h.1)

has-keys_known : (x : String) (m : Map String Task) → is_known m x ≡ true → has x (keys m) ≡ true
unfolding has is_known get
has-keys_known x [] h = cc
has-keys_known x ((k, t) ∷ m) h = ground (arith, has-keys_known x m, text_eq_iff x k)

get-planned :
    (P : Task → Type 0) (m : Map String Task)
    → Keyed m
    → Distinct m
    → ((t : Task) → get String-discrete t.id m ≡ some t → P t)
    → All P (values m)
unfolding get
get-planned P [] h d f = tt
get-planned P ((k, t) ∷ m) h d f = (
  f t (if_pos (String-discrete k t.id) (sym h.0) _ _),
  get-planned P m h.1 d.1 λ u e. f u (still u e),
)
  where
    still :
        (u : Task)
        → get String-discrete u.id m ≡ some u
        → get String-discrete u.id ((k, t) ∷ m) ≡ some u
    still u e = ground (arith, e, get_of_Absent String-discrete u.id m, d.0)

pub start-planned :
    (tasks : List Task)
    → All
        (λ t. get String-discrete t.id (index_tasks tasks []) ≡ some t)
        (values (index_tasks tasks []))
start-planned tasks =
    get-planned _ (index_tasks tasks []) (index_tasks-Keyed tasks [] tt)
      (index_tasks-Distinct tasks [] tt) λ t e. e

pub start-Apart : (tasks : List Task) → Apart (ids_of (values (index_tasks tasks [])))
start-Apart tasks =
    rw (ids_of-values (index_tasks tasks []) (index_tasks-Keyed tasks [] tt))
      (keys-Apart (index_tasks tasks []) (index_tasks-Distinct tasks [] tt))

pub start-length_le : (tasks : List Task) → length (values (index_tasks tasks [])) ≤ length tasks
start-length_le tasks = omega (arith, length-index_tasks_le tasks [])

pub start-has :
    (tasks : List Task) (x : String)
    → has x (ids_of tasks) ≡ true
    → has x (ids_of (values (index_tasks tasks []))) ≡ true
start-has tasks x h =
    rw (ids_of-values (index_tasks tasks []) (index_tasks-Keyed tasks [] tt)) (
      has-keys_known x (index_tasks tasks [])
        (has_of_All _ (ids_of tasks) x (ids-known tasks []) h))
