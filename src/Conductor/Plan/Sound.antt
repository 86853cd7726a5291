-- ===== src/Conductor/Plan/Sound.antt =====
-- The search of `hasDependencyCycle` in packages/core/src/modes/conductorPlan.ts and the order of
-- the visited ids: a search that ends well.
use kross.Base.{
  ap, not, filter_by, sym, ◌∙◌, subst, true_of_false, ℕ, zero, suc, ◌≡◌, refl, inl, inr, Bool, true,
  false, List, [], ◌∷◌, String, arith, text_eq, text_eq_iff, All, Bool-cases,
}
use kross.Conductor.Plan.{
  Search, Visit, cycle, clear, no_fuel, has, visit_each, leave, visit, visit_tasks,
}

-- A search that goes on after a visit and ends well had a visit that ended well.
then_clear :
    (w : Visit) (next : Search → Visit) (t : Search)
    → (elim w [ clear s ↦ next s | cycle ↦ cycle | no_fuel ↦ no_fuel ]) ≡ clear t
    → (m : Search) × (w ≡ clear m) × (next m ≡ clear t)
then_clear (clear m) next t h = (m, refl, h)
then_clear cycle next t h = cc
then_clear no_fuel next t h = cc

filter_absent :
    (id : String) (ids : List String)
    → has id ids ≡ false
    → filter_by (λ j. not (text_eq id j)) ids ≡ ids
unfolding has
filter_absent id [] h = refl
filter_absent id (j ∷ ids) h = ground (arith, filter_absent id ids)

pub filter_head :
    (id : String) (ids : List String)
    → has id ids ≡ false
    → filter_by (λ j. not (text_eq id j)) (id ∷ ids) ≡ ids
filter_head id ids h = ground (arith, text_eq_iff id id, filter_absent id ids h)

leave-clear :
    (id : String) (w : Visit) (t : Search)
    → leave id w ≡ clear t
    → (m : Search) × (w ≡ clear m)
      × (t ≡ record {
        visiting = filter_by (λ j. not (text_eq id j)) m.visiting;
        visited = id ∷ m.visited;
      })
leave-clear id (clear m) t h = (m, refl, cc)
leave-clear id cycle t h = cc
leave-clear id no_fuel t h = cc

has_cons : (x id : String) (ids : List String) → has x ids ≡ true → has x (id ∷ ids) ≡ true
unfolding has
has_cons x id ids h = ground arith

has_head : (id : String) (ids : List String) → has id (id ∷ ids) ≡ true
unfolding has
has_head id ids = ground (arith, text_eq_iff id id)

has_tail :
    (x id : String) (ids xs : List String)
    → has x xs ≡ true
    → has id xs ≡ false
    → has x (id ∷ ids) ≡ has x ids
unfolding has
has_tail x id ids xs h k = elim (Bool-cases (text_eq x id)) [
  | inl e ↦ true_of_false (sym k ∙ subst (λ y. has y xs ≡ true) ((text_eq_iff x id).0 e) h)
  | inr e ↦ ground arith
]

module _ (known : String → Bool) (deps : String → List String) where
  -- Newest first: each id's known dependencies stand behind it, and no id occurs twice.
  abbrev pub IsOrdered : List String → Type 0
  IsOrdered [] = Unit
  IsOrdered (v ∷ vs) =
      All (λ d. known d ≡ true → has d vs ≡ true) (deps v) × (has v vs ≡ false) × IsOrdered vs

  abbrev Within : List String → List String → Type 0
  Within xs ys = (x : String) → has x xs ≡ true → has x ys ≡ true

  -- What a visit of `id` in `s` that ends well leaves.
  pub record Visited (id : String) (s t : Search) : Type 0 where
    pub same_visiting : t.visiting ≡ s.visiting
    pub ordered : IsOrdered t.visited
    pub within : Within s.visited t.visited
    pub closed : (x : String) → has x s.visiting ≡ true → has x t.visited ≡ has x s.visited
    pub present : has id t.visited ≡ true

  pub record VisitedAll (ds : List String) (s t : Search) : Type 0 where
    pub same_visiting : t.visiting ≡ s.visiting
    pub ordered : IsOrdered t.visited
    pub within : Within s.visited t.visited
    pub closed : (x : String) → has x s.visiting ≡ true → has x t.visited ≡ has x s.visited
    pub present : All (λ d. known d ≡ true → has d t.visited ≡ true) ds

  abbrev pub Sound : (String → Search → Visit) → Type 0
  Sound v = (id : String) (s t : Search) → IsOrdered s.visited → v id s ≡ clear t → Visited id s t

  clear_inj : {s t : Search} → clear s ≡ clear t → s ≡ t
  clear_inj h = cc

  All-present-Within :
      (ds xs ys : List String)
      → Within xs ys
      → All (λ d. known d ≡ true → has d xs ≡ true) ds
      → All (λ d. known d ≡ true → has d ys ≡ true) ds
  All-present-Within [] xs ys w h = tt
  All-present-Within (d ∷ ds) xs ys w h = (λ k. w d (h.0 k), All-present-Within ds xs ys w h.1)

  -- One known dependency, then the others.
  VisitedAll-cons :
      (d : String) (ds : List String) (s m t : Search)
      → Visited d s m
      → VisitedAll ds m t
      → VisitedAll (d ∷ ds) s t
  VisitedAll-cons d ds s m t a b = record {
    same_visiting = b.same_visiting ∙ a.same_visiting;
    ordered = b.ordered;
    within = λ x h. b.within x (a.within x h);
    closed = λ x h. b.closed x (ap (has x) a.same_visiting ∙ h) ∙ a.closed x h;
    present = (λ k. b.within d a.present, b.present);
  }

  VisitedAll-skip :
      (d : String) (ds : List String) (s t : Search)
      → known d ≡ false
      → VisitedAll ds s t
      → VisitedAll (d ∷ ds) s t
  VisitedAll-skip d ds s t e b = record {
    same_visiting = b.same_visiting;
    ordered = b.ordered;
    within = b.within;
    closed = b.closed;
    present = (λ k. true_of_false (sym e ∙ k), b.present);
  }

  module _ (v : String → Search → Visit) (sound : Sound v) where
    visit_each-VisitedAll :
        (ds : List String) (s t : Search)
        → IsOrdered s.visited
        → visit_each known deps v ds s ≡ clear t
        → VisitedAll ds s t
    unfolding visit_each
    visit_each-VisitedAll [] s t o h = subst (VisitedAll [] s) (clear_inj h) (record {
      same_visiting = refl;
      ordered = o;
      within = λ x k. k;
      closed = λ x k. refl;
      present = tt;
    })
    visit_each-VisitedAll (d ∷ ds) s t o h = elim (Bool-cases (known d)) [
      | inl k ↦
          let (m, e, r) =
            then_clear (v d s) (λ m. visit_each known deps v ds m) t (rw (k, visit_each) at h) in
          let first = sound d s m o e in
          VisitedAll-cons d ds s m t first (visit_each-VisitedAll ds m t first.ordered r)
      | inr k ↦ VisitedAll-skip d ds s t k (visit_each-VisitedAll ds s t o (ground arith))
    ]

  -- The visit of an id that is new, once its dependencies are visited.
  Visited-leave :
      (id : String) (s m : Search)
      → has id s.visiting ≡ false
      → has id s.visited ≡ false
      → VisitedAll (deps id) (record s { visiting = id ∷ s.visiting }) m
      → Visited id s (record {
        visiting = filter_by (λ j. not (text_eq id j)) m.visiting;
        visited = id ∷ m.visited;
      })
  Visited-leave id s m a b v = record {
    same_visiting =
        ap (filter_by (λ j. not (text_eq id j))) v.same_visiting ∙ filter_head id s.visiting a;
    ordered = (v.present, v.closed id (has_head id s.visiting) ∙ b, v.ordered);
    within = λ x h. has_cons x id m.visited (v.within x h);
    closed =
        λ x h. has_tail x id m.visited s.visiting h a ∙ v.closed x (has_cons x id s.visiting h);
    present = has_head id m.visited;
  }

  pub visit-Visited :
      (fuel : ℕ) (id : String) (s t : Search)
      → IsOrdered s.visited
      → visit known deps fuel id s ≡ clear t
      → Visited id s t
  unfolding visit
  visit-Visited zero id s t o h = cc
  visit-Visited (suc fuel) id s t o h = elim (Bool-cases (has id s.visiting)) [
    | inl a ↦ cc (rw (a, visit) at h)
    | inr a ↦ elim (Bool-cases (has id s.visited)) [
      | inl b ↦ subst (Visited id s) (clear_inj (rw (a, b, visit) at h)) (record {
        same_visiting = refl;
        ordered = o;
        within = λ x k. k;
        closed = λ x k. refl;
        present = b;
      })
      | inr b ↦
          let (m, e, q) = leave-clear id _ t (rw (a, b, visit) at h) in
          subst (Visited id s) (sym q) (
            Visited-leave id s m a b (
              visit_each-VisitedAll (visit known deps fuel) (visit-Visited fuel) (deps id) _ m o e))
    ]
  ]

  -- The loop over the tasks.
  pub visit_tasks-IsOrdered :
      (fuel : ℕ) (ids : List String) (s t : Search)
      → IsOrdered s.visited
      → visit_tasks known deps fuel ids s ≡ clear t
      → IsOrdered t.visited × Within s.visited t.visited × All (λ id. has id t.visited ≡ true) ids
  unfolding visit_tasks
  visit_tasks-IsOrdered fuel [] s t o h =
      subst (λ (u : Search). IsOrdered u.visited × Within s.visited u.visited × Unit {0})
        (clear_inj h) (o, λ x k. k, tt)
  visit_tasks-IsOrdered fuel (id ∷ ids) s t o h =
      let (m, e, r) =
        then_clear (visit known deps fuel id s) (λ m. visit_tasks known deps fuel ids m) t h in
      let v = visit-Visited fuel id s m o e in
      let (o', w, p) = visit_tasks-IsOrdered fuel ids m t v.ordered r in
      (o', λ x k. w x (v.within x k), (w id v.present, p))
