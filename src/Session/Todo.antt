-- ===== src/Session/Todo.antt =====
-- packages/core/src/todo/todoStore.ts. `String.prototype.trim` is a parameter of the functions that
-- call it. Listeners are not modelled: they do not change the list.
pub mod Laws
use kross.Base.{
  ℕ, ◌+◌, Bool, true, false, Option, none, some, List, [], ◌∷◌, String, if◌then◌else◌, text_eq,
  String-discrete,
}
use kross.Base.Maps.{Map, set, values}

pub data TodoStatus : Type 0 where
  pending in_progress completed cancelled : TodoStatus

pub record TodoItem : Type 0 where
  pub id : String
  pub content : String
  pub status : TodoStatus

pub record TodoWriteInput : Type 0 where
  pub todos : List TodoItem
  -- `none` where the field is left out
  pub merge : Option Bool

pub record Counts : Type 0 where
  pub pending : ℕ
  pub in_progress : ℕ
  pub completed : ℕ
  pub cancelled : ℕ

pub record Snapshot : Type 0 where
  pub todos : List TodoItem
  pub counts : Counts

pub data Error : Type 0 where
  empty_id empty_content : Error

pub data Result {ℓ} (A : Type ℓ) : Type ℓ where
  ok : A → Result A
  err : Error → Result A

infixl 5 ◌>>=◌
abbrev ◌>>=◌ {ℓ κ} : {A : Type ℓ} {B : Type κ} → Result A → (A → Result B) → Result B
ok a >>= f = f a
err e >>= f = err e

-- `counts[item.status] += 1`.
pub count_status : TodoStatus → Counts → Counts
count_status TodoStatus.pending c = record c { pending = c.pending + 1 }
count_status TodoStatus.in_progress c = record c { in_progress = c.in_progress + 1 }
count_status TodoStatus.completed c = record c { completed = c.completed + 1 }
count_status TodoStatus.cancelled c = record c { cancelled = c.cancelled + 1 }

abbrev pub no_counts : Counts
no_counts = record { pending = 0; in_progress = 0; completed = 0; cancelled = 0 }

pub count_all : List TodoItem → Counts → Counts
unfolding count_status
count_all [] c = c
count_all (t ∷ ts) c = count_all ts (count_status t.status c)

pub snapshot : List TodoItem → Snapshot
unfolding count_all
snapshot items = record { todos = items; counts = count_all items no_counts }

-- `map.set(item.id, item)` for each item.
pub set_items : List TodoItem → Map String TodoItem → Map String TodoItem
set_items [] m = m
set_items (t ∷ ts) m = set_items ts (set String-discrete t.id t m)

pub dedupe_by_id : List TodoItem → List TodoItem
unfolding set_items
dedupe_by_id items = values (set_items items [])

-- `new Map(items.map(…))`, the sets of the incoming items, and the values.
pub merge_items : List TodoItem → List TodoItem → List TodoItem
unfolding set_items
merge_items items incoming = values (set_items incoming (set_items items []))

-- `input.merge !== false`.
abbrev pub merges : Option Bool → Bool
merges (some false) = false
merges _ = true

abbrev pub by_id : List TodoItem → Map String TodoItem
by_id [] = []
by_id (t ∷ ts) = (t.id, t) ∷ by_id ts

module _ (trim : String → String) where
  -- The status is one of the four by its type.
  normalize_todo_item : TodoItem → Result TodoItem
  normalize_todo_item t =
      if text_eq (trim t.id) ""
      then err empty_id
      else if text_eq (trim t.content) ""
      then err empty_content
      else ok (record { id = trim t.id; content = trim t.content; status = t.status })

  pub normalize_all : List TodoItem → Result (List TodoItem)
  unfolding normalize_todo_item
  normalize_all [] = ok []
  normalize_all (t ∷ ts) = do
    item ← normalize_todo_item t
    rest ← normalize_all ts
    ok (item ∷ rest)

  -- The new list and the snapshot that is returned.
  unfoldable pub write : TodoWriteInput → List TodoItem → Result (List TodoItem × Snapshot)
  unfolding normalize_all dedupe_by_id merge_items snapshot
  write input items = do
    incoming ← normalize_all input.todos
    let items' = if merges input.merge then merge_items items incoming else dedupe_by_id incoming
    ok (items', snapshot items')

  unfoldable restore : List TodoItem → Result (List TodoItem × Snapshot)
  unfolding normalize_all dedupe_by_id snapshot
  restore todos = do
    incoming ← normalize_all todos
    ok (dedupe_by_id incoming, snapshot (dedupe_by_id incoming))

-- The latest status of each item wins.
pub find_item : String → List TodoItem → Option TodoItem
find_item id [] = none
find_item id (t ∷ ts) = if text_eq t.id id then some t else find_item id ts
