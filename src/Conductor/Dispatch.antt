-- ===== src/Conductor/Dispatch.antt =====
-- The loop over the workers in `conductorExecutePhase` of packages/core/src/runtime/modeFlows.ts.
-- What a worker comes to is a parameter, and so are the winner of each `Promise.race` and the abort
-- signal at the head of each round. A map of tasks is the list of its values: each stands under its
-- own id.
pub mod Rounds
pub mod Progress
pub mod Start
pub mod Ends
pub mod Machine
pub mod Ids
pub mod Simulates
pub mod Refines
pub mod Serves
pub mod RoundSteps
pub mod Schedules
pub mod SkippedFirst
use Prim.Native.String.{◌++◌ as join_text}
use kross.Base.{
  ℕ, zero, suc, ◌-◌, String, Bool, true, false, not, ◌&&◌, ◌||◌, Option, none, some, List, [], ◌∷◌,
  ◌++◌, map, text_eq, String-discrete, filter_by, length, if◌then◌else◌,
}
use kross.Base.Maps.{Map, values, get, set}
use kross.Conductor.Plan.{Task, or_empty, index_tasks}
use kross.Conductor.Outcome.{VerificationStatus, TaskOutcome, failed}
use kross.Conductor.Execution.{Completion, is_empty, failed_worker_outcome, is_true}
use kross.Conductor.Verification.{is_status}

-- The outcomes so far, the tasks that have not been started and the workers that are waited for.
pub record Dispatch : Type 0 where
  pub outcomes : Map String TaskOutcome
  pub pending : List Task
  pub running : List Task

pub data Event : Type 0 where
  skipped : String → String → Event
  started completed : String → Event

abbrev pub max_concurrency : ℕ
max_concurrency = 3

abbrev pub has_passed : VerificationStatus → Bool
has_passed status = not (is_status status failed)

unfoldable pub dependency_outcome_succeeded : TaskOutcome → Bool
dependency_outcome_succeeded o =
    (text_eq o.status "completed" && has_passed o.verification.status)
    || (text_eq o.status "needs-review"
        && not (is_true o.execution_incomplete)
        && has_passed o.verification.status
        && not (is_empty o.changed_files))

-- `outcome !== undefined && !dependencyOutcomeSucceeded(outcome)`.
abbrev pub has_failed : Option TaskOutcome → Bool
has_failed none = false
has_failed (some o) = not (dependency_outcome_succeeded o)

abbrev pub dependencies : Task → List String
dependencies t = or_empty t.depends_on

-- `dependencies.find(…)` of the first loop. The schema admits no empty id, so what is found holds.
pub failed_dependency : Map String TaskOutcome → List String → Option String
failed_dependency outcomes [] = none
failed_dependency outcomes (d ∷ ds) = elim (has_failed (get String-discrete d outcomes)) [
  | true ↦ some d
  | false ↦ failed_dependency outcomes ds
]

-- `pendingTasks.delete(id)`.
abbrev pub drop_task : String → List Task → List Task
drop_task id ts = filter_by (λ t. not (text_eq t.id id)) ts

abbrev pub is_some : Option TaskOutcome → Bool
is_some none = false
is_some (some o) = true

-- `dependencies.every((dependency) => taskOutcomesById.has(dependency))`.
pub all_settled : Map String TaskOutcome → List String → Bool
all_settled outcomes [] = true
all_settled outcomes (d ∷ ds) = is_some (get String-discrete d outcomes) && all_settled outcomes ds

pub find_ready : Map String TaskOutcome → List Task → Option Task
unfolding all_settled
find_ready outcomes [] = none
find_ready outcomes (t ∷ ts) = elim (all_settled outcomes (dependencies t)) [
  | true ↦ some t
  | false ↦ find_ready outcomes ts
]

abbrev pub with_event : Event → List Event × Dispatch → List Event × Dispatch
with_event e run = (e ∷ run.0, run.1)

pub start_task : Task → Dispatch → Dispatch
start_task t s = record s { pending = drop_task t.id s.pending; running = s.running ++ t ∷ [] }

-- The inner loop, on the room left beside the running workers.
pub start_workers : ℕ → Dispatch → List Event × Dispatch
unfolding start_task find_ready
start_workers zero s = ([], s)
start_workers (suc room) s = elim (find_ready s.outcomes s.pending) [
  | none ↦ ([], s)
  | some t ↦ with_event (started t.id) (start_workers room (start_task t s))
]

-- `Promise.race` and the deletion of its winner: the worker at the position, or the last.
pub race : ℕ → Task → List Task → Task × List Task
race n t [] = (t, [])
race zero t (u ∷ us) = (t, u ∷ us)
race (suc n) t (u ∷ us) = ((race n u us).0, t ∷ (race n u us).1)

pub settle_all : (Task → TaskOutcome) → List Task → Map String TaskOutcome → Map String TaskOutcome
settle_all outcome [] outcomes = outcomes
settle_all outcome (t ∷ ts) outcomes =
    settle_all outcome ts (set String-discrete t.id (outcome t) outcomes)

-- The end of the loop: the outcomes, with the tasks that could not be scheduled.
pub data Ending : Type 0 where
  settled : Map String TaskOutcome → List Task → Ending
  aborted no_fuel : Ending

abbrev pub Run : Type 0
Run = List Event × Ending

abbrev pub after : List Event → Run → Run
after events run = (events ++ run.0, run.1)

-- A worker's completion: its outcome, or the abort that it was caught by.
abbrev pub complete : Task → List Task → Completion → Dispatch → (Dispatch → Run) → Run
complete t others c s next = elim c.is_aborted [
  | true ↦ ([], aborted)
  | false ↦ after (completed t.id ∷ []) (
      next
        (record s { outcomes = set String-discrete t.id c.outcome s.outcomes; running = others }))
]

-- `依赖任务 … 未成功，已跳过 …`.
abbrev pub skip_message : String → String → String
skip_message d id = join_text "依赖任务 " (join_text d (join_text " 未成功，已跳过 " id))

pub skip_task : Task → String → Dispatch → Dispatch
skip_task t d s = record s {
  outcomes = set String-discrete t.id (failed_worker_outcome t (skip_message d t.id)) s.outcomes;
  pending = drop_task t.id s.pending;
}

-- The first loop, over the tasks that were pending when it began.
pub skip_blocked : List Task → Dispatch → List Event × Dispatch
unfolding failed_dependency skip_task
skip_blocked [] s = ([], s)
skip_blocked (t ∷ ts) s = elim (failed_dependency s.outcomes (dependencies t)) [
  | none ↦ skip_blocked ts s
  | some d ↦ with_event (skipped t.id d) (skip_blocked ts (skip_task t d s))
]

-- A round up to the race.
pub prepare : Dispatch → List Event × Dispatch
unfolding skip_blocked start_workers
prepare s =
    let skips = skip_blocked s.pending s in
    let starts = start_workers (max_concurrency - length skips.1.running) skips.1 in
    (skips.0 ++ starts.0, starts.1)

-- `pendingTasks.size > 0 || runningTasks.size > 0` fails.
abbrev pub is_idle : List Task → List Task → Bool
is_idle [] [] = true
is_idle _ _ = false

module _ (perform : Task → Completion) (winner : ℕ → ℕ) (aborted_at : ℕ → Bool) where
  -- What follows: the end where no worker runs, and else the race.
  abbrev pub finish_round : ℕ → Dispatch → List Task → (Dispatch → Run) → Run
  finish_round n s [] next = (
    [],
    settled (settle_all (λ t. failed_worker_outcome t "任务依赖图无法继续调度") s.pending s.outcomes)
        s.pending,
  )
  finish_round n s (t ∷ ts) next =
      let won = race (winner n) t ts in complete won.0 won.1 (perform won.0) s next

  -- The outer loop, on fuel: each round but the last takes a worker out.
  pub dispatch : ℕ → ℕ → Dispatch → Run
  unfolding prepare race settle_all
  dispatch zero n s = ([], if is_idle s.pending s.running then settled s.outcomes [] else no_fuel)
  dispatch (suc fuel) n s = elim (is_idle s.pending s.running) [
    | true ↦ ([], settled s.outcomes [])
    | false ↦ elim (aborted_at n) [
      | true ↦ ([], aborted)
      | false ↦
          after (prepare s).0
            (finish_round n (prepare s).1 (prepare s).1.running (dispatch fuel (suc n)))
    ]
  ]

  pub dispatch_plan : List Task → Run
  unfolding dispatch
  dispatch_plan tasks =
      dispatch (length tasks) 0
        (record { outcomes = []; pending = values (index_tasks tasks []); running = [] })

-- The outcomes of the tasks of the plan, in its order.
abbrev or_missing : Task → Option TaskOutcome → TaskOutcome
or_missing t none = failed_worker_outcome t "任务未产生执行结果"
or_missing t (some o) = o

unfoldable task_outcomes : List Task → Map String TaskOutcome → List TaskOutcome
task_outcomes tasks outcomes = map (λ t. or_missing t (get String-discrete t.id outcomes)) tasks
