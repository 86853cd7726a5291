-- ===== src/Conductor/Plan/Cycles.antt =====
-- The search of `hasDependencyCycle` in packages/core/src/modes/conductorPlan.ts and the chains of
-- dependencies: a search that answers `cycle`.
use kross.Base.{
  ℕ, zero, suc, ◌<◌, ◌≡◌, refl, ◌⊎◌, inl, inr, Bool, true, false, List, [], ◌∷◌, String, arith,
  text_eq, text_eq_iff, All, length, Bool-cases, subst, sym, ◌∙◌, true_of_false,
}
use kross.Conductor.Plan.{
  Search, Visit, cycle, clear, no_fuel, has, visit_each, leave, visit, visit_tasks,
}
use kross.Conductor.Plan.Sound.{IsOrdered, Sound, visit-Visited}

-- Each member of a list has what all members have.
pub All-of_has :
    (P : String → Type 0) (ids : List String) → ((d : String) → has d ids ≡ true → P d) → All P ids
unfolding has
All-of_has P [] h = tt
All-of_has P (d ∷ ids) h =
    (h d (ground (arith, text_eq_iff d d)), All-of_has P ids (λ x k. h x (ground arith)))

pub has_of_All :
    (P : String → Type 0) (ids : List String) (d : String) → All P ids → has d ids ≡ true → P d
unfolding has
has_of_All P [] d a h = cc
has_of_All P (x ∷ ids) d a h = elim (Bool-cases (text_eq d x)) [
  | inl e ↦ subst P (sym ((text_eq_iff d x).0 e)) a.0
  | inr e ↦ has_of_All P ids d a.1 (ground arith)
]

has_split :
    (x id : String) (ids : List String) → has x (id ∷ ids) ≡ true → (x ≡ id) ⊎ (has x ids ≡ true)
unfolding has
has_split x id ids h = ground (arith, text_eq_iff x id)

leave_cycle : (id : String) (w : Visit) → leave id w ≡ cycle → w ≡ cycle
leave_cycle id (clear m) h = cc
leave_cycle id cycle h = refl
leave_cycle id no_fuel h = cc

other_text :
    (b v : String) (vs : List String) → has b vs ≡ true → has v vs ≡ false → text_eq b v ≡ false
other_text b v vs h k = elim (Bool-cases (text_eq b v)) [
  | inl e ↦ true_of_false (sym k ∙ subst (λ x. has x vs ≡ true) ((text_eq_iff b v).0 e) h)
  | inr e ↦ e
]

module _ (known : String → Bool) (deps : String → List String) where
  -- `a` depends on the known task `b`.
  abbrev DependsOn : String → String → Type 0
  DependsOn a b = (known b ≡ true) × (has b (deps a) ≡ true)

  pub data Chain (a : String) : String → Type 0 where
    step : {b : String} → DependsOn a b → Chain a b
    more : {b c : String} → Chain a b → DependsOn b c → Chain a c

  -- Some task reaches itself.
  abbrev pub HasCycle : Type 0
  HasCycle = (a : String) × Chain a a

  -- Each open visit reaches `id`.
  abbrev Opens : List String → String → Type 0
  Opens visiting id = (x : String) → has x visiting ≡ true → Chain x id

  Opens-step :
      (visiting : List String) (id d : String)
      → DependsOn id d
      → Opens visiting id
      → Opens (id ∷ visiting) d
  Opens-step visiting id d dep o x h = elim (has_split x id visiting h) [
    | inl e ↦ subst (λ y. Chain y d) (sym e) (step dep)
    | inr k ↦ more (o x k) dep
  ]

  abbrev Finds : (String → Search → Visit) → Type 0
  Finds v =
      (id : String) (s : Search)
      → IsOrdered known deps s.visited
      → Opens s.visiting id
      → v id s ≡ cycle
      → HasCycle

  module _ (v : String → Search → Visit) (sound : Sound known deps v) (finds : Finds v) where
    -- A visit of the first dependency, whose outcome is `w`, then the others.
    next-HasCycle :
        (d : String) (s : Search) (w : Visit) (next : Search → Visit)
        → v d s ≡ w
        → IsOrdered known deps s.visited
        → Opens s.visiting d
        → ((m : Search)
            → IsOrdered known deps m.visited
            → m.visiting ≡ s.visiting
            → next m ≡ cycle
            → HasCycle)
        → (elim w [ clear m ↦ next m | cycle ↦ cycle | no_fuel ↦ no_fuel ]) ≡ cycle
        → HasCycle
    next-HasCycle d s (clear m) next e o p k h =
        let a = sound d s m o e in k m a.ordered a.same_visiting h
    next-HasCycle d s cycle next e o p k h = finds d s o p e
    next-HasCycle d s no_fuel next e o p k h = cc

    visit_each-HasCycle :
        (ds : List String) (s : Search)
        → IsOrdered known deps s.visited
        → All (λ d. known d ≡ true → Opens s.visiting d) ds
        → visit_each known deps v ds s ≡ cycle
        → HasCycle
    unfolding visit_each
    visit_each-HasCycle [] s o p h = cc
    visit_each-HasCycle (d ∷ ds) s o p h = elim (Bool-cases (known d)) [
      | inl k ↦
          next-HasCycle d s (v d s) (λ m. visit_each known deps v ds m) refl o (p.0 k)
            (λ m o' e r.
              visit_each-HasCycle ds m o'
                (subst (λ xs. All (λ d. known d ≡ true → Opens xs d) ds) (sym e) p.1) r)
            (rw (k, visit_each) at h)
      | inr k ↦ visit_each-HasCycle ds s o p.1 (rw (k, visit_each) at h)
    ]

  visit-HasCycle :
      (fuel : ℕ) (id : String) (s : Search)
      → IsOrdered known deps s.visited
      → Opens s.visiting id
      → visit known deps fuel id s ≡ cycle
      → HasCycle
  unfolding visit
  visit-HasCycle zero id s o p h = cc
  visit-HasCycle (suc fuel) id s o p h = elim (Bool-cases (has id s.visiting)) [
    | inl a ↦ (id, p id a)
    | inr a ↦ elim (Bool-cases (has id s.visited)) [
      | inl b ↦ cc (rw (a, b, visit) at h)
      | inr b ↦
          visit_each-HasCycle (visit known deps fuel) (visit-Visited known deps fuel)
            (visit-HasCycle fuel) (deps id) (record s { visiting = id ∷ s.visiting }) o
            (All-of_has _ (deps id) (λ d m k. Opens-step s.visiting id d (k, m) p))
            (leave_cycle id _ (rw (a, b, visit) at h))
    ]
  ]

  Opens-none : (visiting : List String) (id : String) → visiting ≡ [] → Opens visiting id
  unfolding has
  Opens-none visiting id e x h = true_of_false (rw e at h)

  -- From no open visits, an answer `cycle` means that there is one.
  pub visit_tasks-HasCycle :
      (fuel : ℕ) (ids : List String) (s : Search)
      → IsOrdered known deps s.visited
      → s.visiting ≡ []
      → visit_tasks known deps fuel ids s ≡ cycle
      → HasCycle
  unfolding visit_tasks
  visit_tasks-HasCycle fuel [] s o e h = cc
  visit_tasks-HasCycle fuel (id ∷ ids) s o e h =
      next-HasCycle (visit known deps fuel) (visit-Visited known deps fuel) (visit-HasCycle fuel) id
        s (visit known deps fuel id s) (λ m. visit_tasks known deps fuel ids m) refl o
        (Opens-none s.visiting id e) (λ m o' q r. visit_tasks-HasCycle fuel ids m o' (q ∙ e) r) h

  -- The place of an id in the order.
  abbrev rank : List String → String → ℕ
  rank [] a = 0
  rank (v ∷ vs) a = elim (text_eq a v) [ true ↦ length vs | false ↦ rank vs a ]

  rank-lt : (vs : List String) (a : String) → has a vs ≡ true → rank vs a < length vs
  unfolding has
  rank-lt [] a h = cc
  rank-lt (v ∷ vs) a h = ground (arith, rank-lt vs a)

  -- In an ordered list a dependency of a member is a member of smaller rank.
  rank_falls :
      (vs : List String) (a b : String)
      → IsOrdered known deps vs
      → DependsOn a b
      → has a vs ≡ true
      → (has b vs ≡ true) × (rank vs b < rank vs a)
  unfolding has
  rank_falls [] a b o d h = cc
  rank_falls (v ∷ vs) a b o d h = elim (Bool-cases (text_eq a v)) [
    | inl e ↦
        let m =
          has_of_All _ (deps v) b o.0
            (subst (λ x. has b (deps x) ≡ true) ((text_eq_iff a v).0 e) d.1) d.0 in
        ground (arith, m, rank-lt vs b m, other_text b v vs m o.1)
    | inr e ↦
        let below = rank_falls vs a b o.2 d (ground arith) in
        ground (arith, below, other_text b v vs below.0 o.1)
  ]

  Chain-rank :
      (vs : List String) (a b : String)
      → IsOrdered known deps vs
      → has a vs ≡ true
      → Chain a b
      → (has b vs ≡ true) × (rank vs b < rank vs a)
  Chain-rank vs a b o m (step d) = rank_falls vs a b o d m
  Chain-rank vs a c o m (more {b} r d) =
      let (n, lt) = Chain-rank vs a b o m r in
      let (k, lt') = rank_falls vs b c o d n in (k, omega arith)

  -- The known ids that a chain starts from or reaches.
  Chain-known : (a b : String) → Chain a b → known b ≡ true
  Chain-known a b (step d) = d.0
  Chain-known a b (more r d) = d.0

  -- Ids in order have no cycle, if all that is known is among them.
  pub not-HasCycle :
      (vs : List String)
      → IsOrdered known deps vs
      → ((a : String) → known a ≡ true → has a vs ≡ true)
      → ¬ HasCycle
  not-HasCycle vs o all (a, r) =
      let below = Chain-rank vs a a o (all a (Chain-known a a r)) r in
      absurd (omega (arith, below.1))
