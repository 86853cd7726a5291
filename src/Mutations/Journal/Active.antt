-- ===== src/Mutations/Journal/Active.antt =====
-- `listActive` of packages/core/src/mutations/mutationJournal.ts behind an undo.
use kross.Base.{
  ℕ, String, ◌≡◌, refl, sym, subst, ◌≢◌, inl, inr, Bool, true, false, List, [], ◌∷◌, ◌++◌, arith,
  All, some_of, text_eq, text_eq_iff, Bool-cases, filter_by, true_of_false,
}
use kross.Base.Maps.{values}
use kross.Mutations.Journal.{
  sort_by_time, insert_by_time, MutationRecord, State, add, load_event, Journal, append_undone,
  list_active, is_active,
}

insert_by_time-All :
    (P : MutationRecord → Type 0) (r : MutationRecord) (rs : List MutationRecord)
    → P r
    → All P rs
    → All P (insert_by_time r rs)
unfolding insert_by_time
insert_by_time-All P r [] p h = (p, tt)
insert_by_time-All P r (x ∷ rs) p h = ground (arith, insert_by_time-All P r rs)

sort_by_time-All :
    (P : MutationRecord → Type 0) (rs : List MutationRecord) → All P rs → All P (sort_by_time rs)
unfolding sort_by_time
sort_by_time-All P [] h = tt
sort_by_time-All P (r ∷ rs) h =
    insert_by_time-All P r (sort_by_time rs) h.0 (sort_by_time-All P rs h.1)

some_of-last : (id : String) (ids : List String) → some_of (text_eq id) (ids ++ id ∷ []) ≡ true
some_of-last id [] = ground (arith, text_eq_iff id id)
some_of-last id (j ∷ ids) = ground (arith, some_of-last id ids)

some_of-add : (id : String) (ids : List String) → some_of (text_eq id) (add id ids) ≡ true
unfolding add
some_of-add id ids = elim (Bool-cases (some_of (text_eq id) ids)) [
  | inl e ↦ rw (e) e
  | inr e ↦ rw (e) (some_of-last id ids)
]

is_active-ne :
    (s : State) (id : String) (r : MutationRecord)
    → some_of (text_eq id) s.inactive ≡ true
    → is_active s r ≡ true
    → r.prepared.transaction_id ≢ id
is_active-ne s id r h a q =
    let k : some_of (text_eq r.prepared.transaction_id) s.inactive ≡ true =
      subst (λ x. some_of (text_eq x) s.inactive ≡ true) (sym q) h in
    true_of_false (rw (k) at a)

filter-active_step :
    (s : State) (id : String) (r : MutationRecord) (rs : List MutationRecord)
    → some_of (text_eq id) s.inactive ≡ true
    → (b : Bool) → is_active s r ≡ b
    → All (λ x. x.prepared.transaction_id ≢ id) (filter_by (is_active s) rs)
    → All
        (λ x. x.prepared.transaction_id ≢ id)
        (elim b [ true ↦ r ∷ filter_by (is_active s) rs | false ↦ filter_by (is_active s) rs ])
filter-active_step s id r rs h true e k = (is_active-ne s id r h e, k)
filter-active_step s id r rs h false e k = k

-- The records that the filter keeps do not have an inactive id.
filter-active :
    (s : State) (id : String) (rs : List MutationRecord)
    → some_of (text_eq id) s.inactive ≡ true
    → All (λ r. r.prepared.transaction_id ≢ id) (filter_by (is_active s) rs)
filter-active s id [] h = tt
filter-active s id (r ∷ rs) h =
    filter-active_step s id r rs h (is_active s r) refl (filter-active s id rs h)

-- After a transaction is undone, no record that `listActive` returns has its id, whatever the
-- journal held.
pub list_active-append_undone :
    (id : String) (now : ℕ) (j : Journal)
    → All (λ r. r.prepared.transaction_id ≢ id) (list_active (append_undone id now j).state)
unfolding list_active append_undone load_event
list_active-append_undone id now j =
    sort_by_time-All (λ r. r.prepared.transaction_id ≢ id)
      (filter_by (is_active (append_undone id now j).state) (values j.state.done))
      (filter-active (append_undone id now j).state id (values j.state.done)
        (some_of-add id j.state.inactive))
