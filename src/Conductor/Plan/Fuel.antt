-- ===== src/Conductor/Plan/Fuel.antt =====
-- The depth of the search of `hasDependencyCycle` in packages/core/src/modes/conductorPlan.ts.
use kross.Base.{
  ℕ, zero, suc, ◌<◌, ◌≤◌, ◌≡◌, refl, ◌≢◌, inl, inr, Bool, true, false, List, [], ◌∷◌, String, arith,
  text_eq_iff, All, length, Bool-cases, subst, sym,
}
use kross.Conductor.Plan.{
  Search, Visit, cycle, clear, no_fuel, has, visit_each, leave, visit, visit_tasks,
}
use kross.Conductor.Plan.Sound.{IsOrdered, Sound, visit-Visited}

-- How many of the ids are not being visited.
abbrev missing : List String → List String → ℕ
missing [] visiting = 0
missing (k ∷ ks) visiting = elim (has k visiting) [
  | true ↦ missing ks visiting
  | false ↦ suc (missing ks visiting)
]

missing-le :
    (ks : List String) (id : String) (visiting : List String)
    → missing ks (id ∷ visiting) ≤ missing ks visiting
unfolding has
missing-le [] id visiting = omega arith
missing-le (k ∷ ks) id visiting = ground (arith, missing-le ks id visiting)

missing-lt :
    (ks : List String) (id : String) (visiting : List String)
    → has id ks ≡ true
    → has id visiting ≡ false
    → missing ks (id ∷ visiting) < missing ks visiting
unfolding has
missing-lt [] id visiting h a = cc
missing-lt (k ∷ ks) id visiting h a = ground (
  arith,
  missing-lt ks id visiting,
  missing-le ks id visiting,
  text_eq_iff id k,
  text_eq_iff k id,
)

pub missing-le-length :
    (ks : List String) (visiting : List String) → missing ks visiting ≤ length ks
missing-le-length [] visiting = omega arith
missing-le-length (k ∷ ks) visiting = ground (arith, missing-le-length ks visiting)

leave_no_fuel : (id : String) (w : Visit) → leave id w ≡ no_fuel → w ≡ no_fuel
leave_no_fuel id (clear m) h = cc
leave_no_fuel id cycle h = cc
leave_no_fuel id no_fuel h = refl

module _ (known : String → Bool) (deps : String → List String) (ks : List String)
    (listed : (id : String) → known id ≡ true → has id ks ≡ true) where
  -- A visit with enough depth for what is not being visited ends.
  abbrev Ends : ℕ → (String → Search → Visit) → Type 0
  Ends fuel v =
      (id : String) (s : Search)
      → known id ≡ true
      → IsOrdered known deps s.visited
      → missing ks s.visiting < fuel
      → v id s ≢ no_fuel

  module _ (fuel : ℕ) (v : String → Search → Visit) (sound : Sound known deps v)
      (ends : Ends fuel v) where
    next_ends :
        (d : String) (s : Search) (w : Visit) (next : Search → Visit)
        → v d s ≡ w
        → known d ≡ true
        → IsOrdered known deps s.visited
        → missing ks s.visiting < fuel
        → ((m : Search)
            → IsOrdered known deps m.visited
            → m.visiting ≡ s.visiting
            → next m ≢ no_fuel)
        → (elim w [ clear m ↦ next m | cycle ↦ cycle | no_fuel ↦ no_fuel ]) ≢ no_fuel
    next_ends d s (clear m) next e k o lt h =
        let a = sound d s m o e in h m a.ordered a.same_visiting
    next_ends d s cycle next e k o lt h = λ q. cc
    next_ends d s no_fuel next e k o lt h = λ q. ends d s k o lt e

    visit_each_ends :
        (ds : List String) (s : Search)
        → IsOrdered known deps s.visited
        → missing ks s.visiting < fuel
        → visit_each known deps v ds s ≢ no_fuel
    unfolding visit_each
    visit_each_ends [] s o lt = λ q. cc
    visit_each_ends (d ∷ ds) s o lt = λ q. elim (Bool-cases (known d)) [
      | inl k ↦
          next_ends d s (v d s) (λ m. visit_each known deps v ds m) refl k o lt
            (λ m o' e. visit_each_ends ds m o' (subst (λ xs. missing ks xs < fuel) (sym e) lt))
            (rw (k, visit_each) at q)
      | inr k ↦ visit_each_ends ds s o lt (rw (k, visit_each) at q)
    ]

  visit-Ends : (fuel : ℕ) → Ends fuel (visit known deps fuel)
  unfolding visit
  visit-Ends zero id s k o lt = absurd (omega arith)
  visit-Ends (suc fuel) id s k o lt = λ q. elim (Bool-cases (has id s.visiting)) [
    | inl a ↦ cc (rw (a, visit) at q)
    | inr a ↦ elim (Bool-cases (has id s.visited)) [
      | inl b ↦ cc (rw (a, b, visit) at q)
      | inr b ↦
          visit_each_ends fuel (visit known deps fuel) (visit-Visited known deps fuel)
            (visit-Ends fuel) (deps id) (record s { visiting = id ∷ s.visiting }) o
            (omega (arith, missing-lt ks id s.visiting (listed id k) a))
            (leave_no_fuel id _ (rw (a, b, visit) at q))
    ]
  ]

  pub visit_tasks_ends :
      (fuel : ℕ) (ids : List String) (s : Search)
      → All (λ id. known id ≡ true) ids
      → IsOrdered known deps s.visited
      → missing ks s.visiting < fuel
      → visit_tasks known deps fuel ids s ≢ no_fuel
  unfolding visit_tasks
  visit_tasks_ends fuel [] s a o lt = λ q. cc
  visit_tasks_ends fuel (id ∷ ids) s a o lt =
      next_ends fuel (visit known deps fuel) (visit-Visited known deps fuel) (visit-Ends fuel) id s
        (visit known deps fuel id s) (λ m. visit_tasks known deps fuel ids m) refl a.0 o lt
        λ m o' e. visit_tasks_ends fuel ids m a.1 o' (subst (λ xs. missing ks xs < fuel) (sym e) lt)
