-- ===== src/Conductor/Dispatch/Simulates.antt =====
-- The state of the loop of `conductorExecutePhase` in packages/core/src/runtime/modeFlows.ts beside
-- the state of a schedule.
use kross.Base.{
  All, text_eq_iff, String-discrete, Bool-cases, some_inj, true_of_false, String, ◌≡◌, refl, ap,
  inl, inr, true, false, some, List, [], ◌∷◌, arith, subst,
}
use kross.Base.Maps.{Map, get, set, get-set}
use kross.Conductor.Plan.{Task, has, index_tasks, ids_of}
use kross.Conductor.Outcome.{TaskOutcome}
use kross.Conductor.Dispatch.{
  Dispatch, dependency_outcome_succeeded, has_failed, dependencies, failed_dependency, is_some,
  all_settled, find_ready,
}
use kross.Conductor.Execution.{failed_worker_outcome}
use kross.Conductor.Dispatch.Machine.{Scheduler, IsNew}
use kross.Conductor.Dispatch.Start.{Apart}

pub failed_dependency-some :
    (outcomes : Map String TaskOutcome) (ds : List String) (d : String)
    → failed_dependency outcomes ds ≡ some d
    → (has d ds ≡ true) × (has_failed (get String-discrete d outcomes) ≡ true)
unfolding failed_dependency has
failed_dependency-some outcomes [] d h = cc
failed_dependency-some outcomes (e ∷ ds) d h =
    elim (Bool-cases (has_failed (get String-discrete e outcomes))) [
      | inl k ↦
          let q = some_inj (rw (k, failed_dependency) at h) in
          (
            ground (arith, text_eq_iff d e),
            subst (λ x. has_failed (get String-discrete x outcomes) ≡ true) q k,
          )
      | inr k ↦
          let r = failed_dependency-some outcomes ds d (rw (k, failed_dependency) at h) in
          (ground (arith, r.0), r.1)
    ]

All-settled :
    (outcomes : Map String TaskOutcome) (ds : List String)
    → all_settled outcomes ds ≡ true
    → All (λ d. is_some (get String-discrete d outcomes) ≡ true) ds
unfolding all_settled
All-settled outcomes [] h = tt
All-settled outcomes (d ∷ ds) h = elim (Bool-cases (is_some (get String-discrete d outcomes))) [
  | inl k ↦ (k, All-settled outcomes ds (rw (k, all_settled) at h))
  | inr k ↦ true_of_false (rw (k, all_settled) at h)
]

-- The task that is found is pending, and its dependencies are settled.
pub find_ready-some :
    (P : Task → Type 0) (outcomes : Map String TaskOutcome) (ts : List Task) (t : Task)
    → All P ts
    → find_ready outcomes ts ≡ some t
    → (has t.id (ids_of ts) ≡ true)
      × P t
      × All (λ d. is_some (get String-discrete d outcomes) ≡ true) (dependencies t)
unfolding find_ready has
find_ready-some P outcomes [] t a h = cc
find_ready-some P outcomes (u ∷ ts) t a h =
    elim (Bool-cases (all_settled outcomes (dependencies u))) [
      | inl k ↦
          let q = some_inj (rw (k, find_ready) at h) in
          (
            ground (arith, text_eq_iff t.id u.id, ap (λ (v : Task). v.id) q),
            subst P q a.0,
            subst (λ v. All (λ d. is_some (get String-discrete d outcomes) ≡ true) (dependencies v))
                q (All-settled outcomes (dependencies u) k),
          )
      | inr k ↦
          let r = find_ready-some P outcomes ts t a.1 (rw (k, find_ready) at h) in
          (ground (arith, r.0), r.1, r.2)
    ]

-- The ids of the schedule are those of the loop's maps, and no id is in two of them.
pub record Simulates (tasks : List Task) (a : Scheduler) (s : Dispatch) : Type 0 where
  pub done : (x : String) → has x a.done ≡ is_some (get String-discrete x s.outcomes)
  pub failures : (x : String) → has x a.failures ≡ has_failed (get String-discrete x s.outcomes)
  pub running : a.running ≡ ids_of s.running
  pub apart_running : Apart (ids_of s.running)
  pub apart_pending : Apart (ids_of s.pending)
  pub fresh : (x : String) → has x (ids_of s.pending) ≡ true → IsNew a x
  pub unsettled : (x : String) → has x a.running ≡ true → has x a.done ≡ false
  pub planned : All (λ t. get String-discrete t.id (index_tasks tasks []) ≡ some t) s.pending
  pub staged : All (λ t. get String-discrete t.id (index_tasks tasks []) ≡ some t) s.running

-- A new outcome makes its id done, and one of a failure makes it a failure.
pub has-done_set :
    (xs : List String) (m : Map String TaskOutcome) (id : String) (o : TaskOutcome)
    → ((x : String) → has x xs ≡ is_some (get String-discrete x m))
    → (x : String) → has x (id ∷ xs) ≡ is_some (get String-discrete x (set String-discrete id o m))
unfolding has
has-done_set xs m id o h x = ground (arith, h x, get-set String-discrete id x o m, text_eq_iff x id)

pub has-failures_set :
    (xs : List String) (m : Map String TaskOutcome) (id : String) (o : TaskOutcome)
    → dependency_outcome_succeeded o ≡ false
    → ((x : String) → has x xs ≡ has_failed (get String-discrete x m))
    → (x : String)
    → has x (id ∷ xs) ≡ has_failed (get String-discrete x (set String-discrete id o m))
unfolding has
has-failures_set xs m id o k h x =
    ground (arith, h x, get-set String-discrete id x o m, text_eq_iff x id)

pub has-failures_keep :
    (xs : List String) (m : Map String TaskOutcome) (id : String) (o : TaskOutcome)
    → dependency_outcome_succeeded o ≡ true
    → is_some (get String-discrete id m) ≡ false
    → ((x : String) → has x xs ≡ has_failed (get String-discrete x m))
    → (x : String) → has x xs ≡ has_failed (get String-discrete x (set String-discrete id o m))
has-failures_keep xs m id o k n h x = elim (String-discrete id x) [
  | yes q ↦ ground (arith, h x, k, n, get-set String-discrete id x o m, q)
  | no q ↦ ground (arith, h x, get-set String-discrete id x o m)
]

pub skipped_failed :
    (t : Task) (message : String)
    → dependency_outcome_succeeded (failed_worker_outcome t message) ≡ false
unfolding dependency_outcome_succeeded failed_worker_outcome
skipped_failed t message = refl
