-- ===== src/Conductor/Dispatch/Ids.antt =====
-- The ids of the tasks that the loop of `conductorExecutePhase` in
-- packages/core/src/runtime/modeFlows.ts moves between its maps.
use kross.Base.{
  All, ◌&&◌, not, text_eq, text_eq_iff, Bool-cases, true_of_false, ℕ, zero, suc, String, ◌≡◌, refl,
  sym, subst, ◌∙◌, inl, inr, true, false, not, ◌&&◌, ◌||◌, List, [], ◌∷◌, ◌++◌, arith,
}
use kross.Conductor.Plan.{Task, has, ids_of}
use kross.Conductor.Plan.Sound.{filter_head}
use kross.Conductor.Dispatch.{drop_task, race}
use kross.Conductor.Dispatch.Machine.{remove}
use kross.Conductor.Dispatch.Start.{Apart}

pub text_eq_self : (x : String) → text_eq x x ≡ true
text_eq_self x = (text_eq_iff x x).1 refl

pub has-dropped :
    (x id : String) (ts : List Task)
    → has x (ids_of (drop_task id ts)) ≡ true
    → (text_eq x id ≡ false) × (has x (ids_of ts) ≡ true)
unfolding has
has-dropped x id [] h = cc
has-dropped x id (t ∷ ts) h =
    ground (arith, has-dropped x id ts, text_eq_iff t.id id, text_eq_iff x t.id, text_eq_iff x id)

has-dropped_absent :
    (x id : String) (ts : List Task)
    → has x (ids_of ts) ≡ false
    → has x (ids_of (drop_task id ts)) ≡ false
unfolding has
has-dropped_absent x id [] h = h
has-dropped_absent x id (t ∷ ts) h = ground (arith, has-dropped_absent x id ts)

pub drop_task-Apart :
    (id : String) (ts : List Task) → Apart (ids_of ts) → Apart (ids_of (drop_task id ts))
drop_task-Apart id [] h = tt
drop_task-Apart id (t ∷ ts) h = ground (arith, drop_task-Apart id ts, has-dropped_absent t.id id ts)

pub ids_of-append : (ts : List Task) (t : Task) → ids_of (ts ++ t ∷ []) ≡ ids_of ts ++ t.id ∷ []
ids_of-append [] t = refl
ids_of-append (u ∷ ts) t = rw (ids_of-append ts t) refl

pub has-append_one :
    (x y : String) (xs : List String) → has x (xs ++ y ∷ []) ≡ has x xs || text_eq x y
unfolding has
has-append_one x y [] = ground arith
has-append_one x y (z ∷ xs) = ground (arith, has-append_one x y xs)

pub append-Apart :
    (y : String) (xs : List String) → Apart xs → has y xs ≡ false → Apart (xs ++ y ∷ [])
unfolding has
append-Apart y [] h k = (refl, tt)
append-Apart y (x ∷ xs) h k =
    ground (arith, append-Apart y xs, has-append_one x y xs, text_eq_iff x y, text_eq_iff y x)

pub All-race :
    (P : Task → Type 0) (n : ℕ) (t : Task) (ts : List Task)
    → All P (t ∷ ts)
    → P (race n t ts).0 × All P (race n t ts).1
unfolding race
All-race P n t [] h = h
All-race P zero t (u ∷ us) h = h
All-race P (suc n) t (u ∷ us) h = let (w, r) = All-race P n u us h.1 in (w, (h.0, r))

pub has-race_winner :
    (n : ℕ) (t : Task) (ts : List Task) → has (race n t ts).0.id (ids_of (t ∷ ts)) ≡ true
unfolding has race
has-race_winner n t [] = ground (arith, text_eq_iff t.id t.id)
has-race_winner zero t (u ∷ us) = ground (arith, text_eq_iff t.id t.id)
has-race_winner (suc n) t (u ∷ us) = ground (arith, has-race_winner n u us)

pub has-race_others :
    (x : String) (n : ℕ) (t : Task) (ts : List Task)
    → has x (ids_of (t ∷ ts)) ≡ false
    → has x (ids_of (race n t ts).1) ≡ false
unfolding has race
has-race_others x n t [] h = refl
has-race_others x zero t (u ∷ us) h = ground arith
has-race_others x (suc n) t (u ∷ us) h = ground (arith, has-race_others x n u us)

pub race-Apart :
    (n : ℕ) (t : Task) (ts : List Task) → Apart (ids_of (t ∷ ts)) → Apart (ids_of (race n t ts).1)
unfolding race
race-Apart n t [] h = tt
race-Apart zero t (u ∷ us) h = h.1
race-Apart (suc n) t (u ∷ us) h = (has-race_others t.id n u us h.0, race-Apart n u us h.1)

-- The winner of a race is the one that leaves.
pub ids_of-race :
    (n : ℕ) (t : Task) (ts : List Task)
    → Apart (ids_of (t ∷ ts))
    → remove (race n t ts).0.id (ids_of (t ∷ ts)) ≡ ids_of (race n t ts).1
unfolding race
ids_of-race n t [] h = filter_head t.id [] h.0
ids_of-race zero t (u ∷ us) h = filter_head t.id (ids_of (u ∷ us)) h.0
ids_of-race (suc n) t (u ∷ us) h = ground (arith, ids_of-race n u us h.1, winner_ne)
  where
    winner_ne : text_eq (race n u us).0.id t.id ≡ false
    winner_ne = elim (Bool-cases (text_eq (race n u us).0.id t.id)) [
      | inr e ↦ e
      | inl e ↦ true_of_false (
          sym h.0
          ∙ subst (λ x. has x (ids_of (u ∷ us)) ≡ true) ((text_eq_iff _ _).0 e)
              (has-race_winner n u us))
    ]

pub has-remove :
    (x w : String) (xs : List String) → has x (remove w xs) ≡ has x xs && not (text_eq x w)
unfolding has
has-remove x w [] = refl
has-remove x w (y ∷ xs) =
    ground (arith, has-remove x w xs, text_eq_iff x w, text_eq_iff x y, text_eq_iff w y)

-- An id of a list is not one outside it.
pub apart_of_has :
    (x w : String) (xs : List String) → has x xs ≡ false → has w xs ≡ true → text_eq x w ≡ false
apart_of_has x w xs h k = elim (Bool-cases (text_eq x w)) [
  | inr e ↦ e
  | inl e ↦ true_of_false (sym h ∙ subst (λ y. has y xs ≡ true) (sym ((text_eq_iff x w).0 e)) k)
]
