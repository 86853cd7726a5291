-- ===== src/Tests/Dispatches.antt =====
-- Runs of the dispatch of workers on a plan of two tasks, and a task that is listed before the task
-- that it depends on.
use kross.Base.{length, String-discrete, ◌≤◌, String, ◌≡◌, refl, true, false, none, [], ◌∷◌}
use kross.Base.Maps.{Map, get}
use kross.Conductor.Plan.{Task}
use kross.Conductor.Dispatch.Machine.{Follows}
use kross.Conductor.Outcome.{TaskOutcome}
use kross.Conductor.Dispatch.{
  max_concurrency, dependency_outcome_succeeded, has_failed, prepare, dispatch_plan, skipped,
  started,
}
use kross.Conductor.Execution.{Completion}
use kross.Conductor.Dispatch.Refines.{deps}
use kross.Conductor.Dispatch.Serves.{Succeeds}
use kross.Conductor.Dispatch.Ends.{SettlesAll, dispatch_plan-SettlesAll}
use kross.Conductor.Dispatch.Schedules.{dispatch_plan-Follows}
use kross.Conductor.Dispatch.SkippedFirst.{prepare-start_after_skip}
use kross.Conductor.Plan.Accepted.{IsPlan, plan_issues-IsPlan}
use kross.Tests.Conductors.{task, two_tasks, two_tasks_accepted, changed}

two_tasks-IsPlan : IsPlan two_tasks
two_tasks-IsPlan = (plan_issues-IsPlan two_tasks).0 two_tasks_accepted

abbrev works : Task → Completion
works t = record { outcome = changed; is_aborted = false }

dispatch_plan-SettlesAll_example :
    SettlesAll two_tasks (dispatch_plan works (λ n. 0) (λ n. false) two_tasks)
dispatch_plan-SettlesAll_example =
    dispatch_plan-SettlesAll works (λ n. 0) (λ n. false) (λ n. refl) (λ t. refl) two_tasks
      two_tasks-IsPlan

dispatch_plan-Follows_example :
    Follows
      (deps two_tasks)
      (Succeeds two_tasks works)
      (record { done = []; failures = []; running = [] })
      (dispatch_plan works (λ n. 0) (λ n. false) two_tasks).0
      (λ b. length b.running ≤ max_concurrency)
dispatch_plan-Follows_example = dispatch_plan-Follows two_tasks works (λ n. 0) (λ n. false)

abbrev z_failed : Map String TaskOutcome
z_failed = ("z", record changed { status = "failed" }) ∷ []

z_failed-has_failed : has_failed (get String-discrete "z" z_failed) ≡ true
unfolding get dependency_outcome_succeeded String-discrete
z_failed-has_failed = refl

u_open : get String-discrete "u" z_failed ≡ none
unfolding get String-discrete
u_open = refl

prepare-start_after_skip_example :
    (prepare (record {
      outcomes = z_failed;
      pending = task "t" ("u" ∷ []) ∷ task "u" ("z" ∷ []) ∷ [];
      running = [];
    })).0
    ≡ skipped "u" "z" ∷ started "t" ∷ []
prepare-start_after_skip_example =
    prepare-start_after_skip z_failed (task "t" ("u" ∷ [])) (task "u" ("z" ∷ [])) "z" refl refl refl
      u_open z_failed-has_failed
