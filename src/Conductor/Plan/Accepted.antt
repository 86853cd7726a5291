-- ===== src/Conductor/Plan/Accepted.antt =====
-- The plans that `superRefine` in packages/core/src/modes/conductorPlan.ts accepts.
use mathlib.Core.List.{append-nil, append_assoc}
use kross.Base.{
  if◌then◌else◌, String, ◌≡◌, refl, sym, ap, subst, ◌∙◌, ◌↔◌, inl, inr, Bool, true, false, List, [],
  ◌∷◌, ◌++◌, arith, text_eq, All, Bool-cases, true_of_false,
}
use kross.Conductor.Plan.{
  Task, has, or_empty, ids_of, Issue, plan_issues, cyclic, id_issues, dependency_issues,
  all_dependency_issues, has_dependency_cycle,
}
use kross.Conductor.Plan.Decides.{PlanCycle, has_dependency_cycle_iff}

append-nil_iff : (xs ys : List Issue) → (xs ++ ys ≡ []) ↔ ((xs ≡ []) × (ys ≡ []))
append-nil_iff [] ys = (λ h. (refl, h), λ h. h.1)
append-nil_iff (x ∷ xs) ys = (λ h. cc, λ h. cc (h.0))

-- Each task has an id that is not among the given ones and those before it.
abbrev pub Fresh : List String → List Task → Type 0
Fresh ids [] = Unit
Fresh ids (t ∷ ts) = (has t.id ids ≡ false) × Fresh (ids ++ t.id ∷ []) ts

-- The dependency is another task of the plan.
abbrev pub IsResolved : List String → String → String → Type 0
IsResolved ids id d = (text_eq d id ≡ false) × (has d ids ≡ true)

id_issues-Fresh :
    (ids : List String) (ts : List Task)
    → (id_issues ids ts).0 ≡ []
    → Fresh ids ts × ((id_issues ids ts).1 ≡ ids ++ ids_of ts)
unfolding id_issues
id_issues-Fresh ids [] h = (tt, sym (append-nil ids))
id_issues-Fresh ids (t ∷ ts) h = elim (Bool-cases (has t.id ids)) [
  | inl e ↦ cc (rw (e) at h)
  | inr e ↦
      let k = id_issues-Fresh (ids ++ t.id ∷ []) ts (rw (e) at h) in
      ((e, k.0), rw (e) (k.1 ∙ append_assoc ids (t.id ∷ []) (ids_of ts)))
]

Fresh-id_issues :
    (ids : List String) (ts : List Task)
    → Fresh ids ts
    → (id_issues ids ts ≡ ([], ids ++ ids_of ts))
unfolding id_issues
Fresh-id_issues ids [] h = ap (λ l. ([], l)) (sym (append-nil ids))
Fresh-id_issues ids (t ∷ ts) h =
    rw (h.0, Fresh-id_issues (ids ++ t.id ∷ []) ts h.1)
      (ap (λ l. ([], l)) (append_assoc ids (t.id ∷ []) (ids_of ts)))

dependency_issues-nil_iff :
    (ids : List String) (id : String) (ds : List String)
    → (dependency_issues ids id ds ≡ []) ↔ All (IsResolved ids id) ds
unfolding dependency_issues
dependency_issues-nil_iff ids id [] = (λ h. tt, λ h. refl)
dependency_issues-nil_iff ids id (d ∷ ds) =
    let k = dependency_issues-nil_iff ids id ds in ground (arith, k)

abbrev pub AllResolved : List String → List Task → Type 0
AllResolved ids [] = Unit
AllResolved ids (t ∷ ts) = All (IsResolved ids t.id) (or_empty t.depends_on) × AllResolved ids ts

all_dependency_issues-nil_iff :
    (ids : List String) (ts : List Task) → (all_dependency_issues ids ts ≡ []) ↔ AllResolved ids ts
unfolding all_dependency_issues
all_dependency_issues-nil_iff ids [] = (λ h. tt, λ h. refl)
all_dependency_issues-nil_iff ids (t ∷ ts) = ground (
  arith,
  append-nil_iff (dependency_issues ids t.id (or_empty t.depends_on))
      (all_dependency_issues ids ts),
  dependency_issues-nil_iff ids t.id (or_empty t.depends_on),
  all_dependency_issues-nil_iff ids ts,
)

cyclic_iff : (b : Bool) → ((if b then cyclic ∷ [] else []) ≡ []) ↔ (b ≡ false)
cyclic_iff true = (λ h. cc, λ h. cc)
cyclic_iff false = (λ h. refl, λ h. refl)

-- What an accepted plan is: no id stands twice, every dependency is another task of the plan, and
-- no task depends on itself through others.
pub record IsPlan (tasks : List Task) : Type 0 where
  pub fresh : Fresh [] tasks
  pub resolved : AllResolved (ids_of tasks) tasks
  pub acyclic : ¬ PlanCycle tasks

accepted : (tasks : List Task) → (¬ PlanCycle tasks) → has_dependency_cycle tasks ≡ false
accepted tasks n = elim (Bool-cases (has_dependency_cycle tasks)) [
  | inl e ↦ absurd (n ((has_dependency_cycle_iff tasks).0 e))
  | inr e ↦ e
]

-- The refinement of a conductor plan finds no issue if and only if no id is that of an earlier
-- task, each dependency is the id of another task of the plan, and no task depends on itself
-- through a chain of dependencies.
pub plan_issues-IsPlan : (tasks : List Task) → (plan_issues tasks ≡ []) ↔ IsPlan tasks
unfolding plan_issues
plan_issues-IsPlan tasks = (
  λ h.
      let q = (append-nil_iff _ _).0 h in
      let r = (append-nil_iff _ _).0 q.0 in
      let k = id_issues-Fresh [] tasks r.0 in
      record {
        fresh = k.0;
        resolved =
            (all_dependency_issues-nil_iff (ids_of tasks) tasks).0
              (subst (λ ids. all_dependency_issues ids tasks ≡ []) k.1 r.1);
        acyclic =
            λ c. true_of_false (sym ((cyclic_iff _).0 q.1) ∙ (has_dependency_cycle_iff tasks).1 c);
      },
  λ h.
      let k = Fresh-id_issues [] tasks h.fresh in
      (append-nil_iff _ _).1 (
        (append-nil_iff _ _).1 (
          ap (λ p. p.0) k,
          subst (λ ids. all_dependency_issues ids tasks ≡ []) (sym (ap (λ p. p.1) k))
              ((all_dependency_issues-nil_iff (ids_of tasks) tasks).1 h.resolved),
        ),
        (cyclic_iff _).1 (accepted tasks h.acyclic),
      ),
)
