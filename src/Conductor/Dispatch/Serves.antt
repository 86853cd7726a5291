-- ===== src/Conductor/Dispatch/Serves.antt =====
-- The test of a dependency's outcome in `conductorExecutePhase` of
-- packages/core/src/runtime/modeFlows.ts.
use kross.Base.{
  text_eq, text_eq_iff, String-discrete, Bool-cases, String, ◌≡◌, ◌≢◌, ◌↔◌, refl, ◌⊎◌, inl, inr,
  Bool, true, false, Option, none, some, List, [], ◌∷◌, arith,
}
use kross.Base.Maps.{get}
use kross.Conductor.Plan.{Task, index_tasks}
use kross.Conductor.Outcome.{VerificationStatus, TaskOutcome, passed, failed, not_run, not_needed}
use kross.Conductor.Execution.{Completion, is_true, is_empty}
use kross.Conductor.Dispatch.{dependency_outcome_succeeded, has_passed}

-- The work is completed, or waits for a review, is whole and changed a file; and no verification of
-- it failed.
abbrev pub Serves : TaskOutcome → Type 0
Serves o =
    (o.verification.status ≢ failed)
    × ((o.status ≡ "completed")
        ⊎ ((o.status ≡ "needs-review")
            × (o.execution_incomplete ≢ some true)
            × (o.changed_files ≢ [])))

abbrev pub Comes : (Task → Completion) → Option Task → Type 0
Comes perform none = ⊥
Comes perform (some t) = Serves (perform t).outcome

-- The id is that of a task whose worker's outcome serves its dependents.
abbrev pub Succeeds : List Task → (Task → Completion) → String → Type 0
Succeeds tasks perform x = Comes perform (get String-discrete x (index_tasks tasks []))

has_passed_iff : (s : VerificationStatus) → (has_passed s ≡ true) ↔ (s ≢ failed)
has_passed_iff passed = ((λ h e. cc), (λ h. refl))
has_passed_iff failed = ((λ h e. cc), (λ h. absurd (h refl)))
has_passed_iff not_run = ((λ h e. cc), (λ h. refl))
has_passed_iff not_needed = ((λ h e. cc), (λ h. refl))

is_true_iff : (b : Option Bool) → (is_true b ≡ false) ↔ (b ≢ some true)
is_true_iff none = ((λ h e. cc), (λ h. refl))
is_true_iff (some true) = ((λ h e. cc), (λ h. absurd (h refl)))
is_true_iff (some false) = ((λ h e. cc), (λ h. refl))

is_empty_iff : (xs : List String) → (is_empty xs ≡ false) ↔ (xs ≢ [])
is_empty_iff [] = ((λ h e. cc), (λ h. absurd (h refl)))
is_empty_iff (x ∷ xs) = ((λ h e. cc), (λ h. refl))

pub succeeded-Serves : (o : TaskOutcome) → dependency_outcome_succeeded o ≡ true → Serves o
unfolding dependency_outcome_succeeded
succeeded-Serves o h = (
  (has_passed_iff o.verification.status).0 (ground arith),
  elim (Bool-cases (text_eq o.status "completed")) [
    | inl e ↦ inl ((text_eq_iff o.status "completed").0 e)
    | inr e ↦ inr (
      (text_eq_iff o.status "needs-review").0 (ground arith),
      (is_true_iff o.execution_incomplete).0 (ground arith),
      (is_empty_iff o.changed_files).0 (ground arith),
    )
  ],
)

pub Serves-succeeded : (o : TaskOutcome) → Serves o → dependency_outcome_succeeded o ≡ true
unfolding dependency_outcome_succeeded
Serves-succeeded o (p, inl e) =
    let a = (has_passed_iff o.verification.status).1 p in
    let b = (text_eq_iff o.status "completed").1 e in ground arith
Serves-succeeded o (p, inr (e, i, c)) =
    let a = (has_passed_iff o.verification.status).1 p in
    let b = (text_eq_iff o.status "needs-review").1 e in
    let i' = (is_true_iff o.execution_incomplete).1 i in
    let c' = (is_empty_iff o.changed_files).1 c in ground arith
