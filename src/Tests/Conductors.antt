-- ===== src/Tests/Conductors.antt =====
-- Plans of two tasks, a worker whose first attempt fails, and a verified outcome.
use kross.Base.{
  String-discrete, ℕ, String, ◌≡◌, refl, ◌↔◌, Bool, true, false, none, some, List, [], ◌∷◌, All,
  text_eq,
}
use kross.Base.Maps.{get, set}
use kross.Conductor.Plan.{
  search_plan, id_issues, all_dependency_issues, dependency_issues, visit_tasks, visit, visit_each,
  has, index_tasks, is_known, plan_issues, Task, depends, has_dependency_cycle,
}
use kross.Conductor.Plan.Accepted.{IsPlan, plan_issues-IsPlan}
use kross.Conductor.Plan.Decides.{PlanCycle, has_dependency_cycle_iff}
use kross.Conductor.Outcome.{VerificationReport, TaskOutcome, passed, not_run}
use kross.Conductor.Execution.{SubagentResult, Spawn, execute_conductor_worker, finished, replanned}
use kross.Conductor.Execution.Retries.{IsJustified, execute_conductor_worker-IsJustified}

abbrev pub task : String → List String → Task
task id depends = record {
  id = id;
  title = id;
  prompt = "do it";
  depends_on = some depends;
  repo_id = none;
  model_profile_id = none;
}

abbrev pub two_tasks : List Task
two_tasks = task "a" [] ∷ task "b" ("a" ∷ []) ∷ []

has_dependency_cycle_iff_example : (has_dependency_cycle two_tasks ≡ true) ↔ PlanCycle two_tasks
has_dependency_cycle_iff_example = has_dependency_cycle_iff two_tasks

plan_issues-IsPlan_example : (plan_issues two_tasks ≡ []) ↔ IsPlan two_tasks
plan_issues-IsPlan_example = plan_issues-IsPlan two_tasks

pub two_tasks_accepted : plan_issues two_tasks ≡ []
unfolding plan_issues search_plan id_issues all_dependency_issues dependency_issues
    has_dependency_cycle visit_tasks visit visit_each has index_tasks is_known depends get set
    String-discrete
two_tasks_accepted = refl

abbrev not_checked : VerificationReport
not_checked = record { status = not_run; commands = []; evidence = []; reason = none }

abbrev checked : VerificationReport
checked = record { status = passed; commands = "npm test" ∷ []; evidence = []; reason = none }

abbrev failing : SubagentResult
failing = record {
  status = "failed";
  summary = "no idea";
  changed_files = [];
  evidence = [];
  risks = [];
  needs_review = [];
  verification = not_checked;
}

abbrev spawns : ℕ → Spawn
spawns n = finished failing

execute_conductor_worker-IsJustified_example :
    All
      (IsJustified spawns)
      (execute_conductor_worker
        (text_eq "stalled")
        (text_eq "stalled")
        (λ h. h.summary)
        (task "a" [])
        spawns
        (some (replanned (task "a" [])))).0
execute_conductor_worker-IsJustified_example =
    execute_conductor_worker-IsJustified (text_eq "stalled") (text_eq "stalled") (λ h. h.summary)
      (task "a" []) spawns (some (replanned (task "a" [])))

abbrev pub changed : TaskOutcome
changed = record {
  task_id = "a";
  title = "a";
  repo_id = none;
  status = "completed";
  summary = "done";
  changed_files = "src/a.ts" ∷ [];
  evidence = [];
  risks = [];
  needs_review = [];
  verification = checked;
  attempts = some 1;
  recovery = none;
  execution_incomplete = some false;
  retry_safe = some false;
}

abbrev needs_check : List String → Bool
needs_check [] = false
needs_check (file ∷ files) = true

abbrev label : String → String → String
label name text = text
