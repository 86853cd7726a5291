-- ===== src/Conductor/Execution.antt =====
-- `executeConductorWorker` of packages/core/src/runtime/conductorExecution.ts. What each attempt
-- meets is its environment: what the subagent returns or throws, and what the senior model answers
-- to the request for a new plan. Prompts, trace payloads and cut texts are left out; of the trace
-- the events are kept, in order.
pub mod Retries
use kross.Base.{
  ℕ, zero, suc, Bool, true, false, ◌&&◌, ◌||◌, Option, none, some, List, [], ◌∷◌, ◌++◌, String,
  if◌then◌else◌, ltb, text_eq, some_of,
}
use kross.Conductor.Plan.{Task}
use kross.Conductor.Outcome.{VerificationReport, not_run, Recovery, retry, replan, TaskOutcome}

pub record SubagentResult : Type 0 where
  pub status : String
  pub summary : String
  pub changed_files : List String
  pub evidence : List String
  pub risks : List String
  pub needs_review : List String
  pub verification : VerificationReport

pub data Spawn : Type 0 where
  finished : SubagentResult → Spawn
  threw : String → Spawn
  aborted : Spawn

-- The answer to the request for a new plan: a task that `parseReplannedConductorTask` accepts, text
-- that it does not accept, an error, or an abort.
pub data Replan : Type 0 where
  replanned : Task → Replan
  unusable : Replan
  replan_threw : String → Replan
  replan_aborted : Replan

pub data Event : Type 0 where
  attempt_started : ℕ → Option Recovery → Event
  attempt_completed : ℕ → String → Event
  worker_retry : ℕ → Event
  replan_started : Event
  replan_completed : Bool → Event

pub record Completion : Type 0 where
  pub outcome : TaskOutcome
  pub is_aborted : Bool

abbrev pub Run : Type 0
Run = List Event × Completion

abbrev pub max_attempts : ℕ
max_attempts = 2

abbrev pub is_empty : List String → Bool
is_empty [] = true
is_empty (x ∷ xs) = false

unfoldable pub failed_worker_outcome : Task → String → TaskOutcome
failed_worker_outcome task message = record {
  task_id = task.id;
  title = task.title;
  repo_id = task.repo_id;
  status = "failed";
  summary = message;
  changed_files = [];
  evidence = [];
  risks = message ∷ [];
  needs_review = "Worker execution failed before producing a usable result." ∷ [];
  verification = record { status = not_run; commands = []; evidence = []; reason = some message };
  attempts = none;
  recovery = none;
  execution_incomplete = some true;
  retry_safe = some false;
}

abbrev pub is_true : Option Bool → Bool
is_true (some true) = true
is_true _ = false

pub is_retryable_worker_outcome : TaskOutcome → Bool
is_retryable_worker_outcome o =
    is_true o.retry_safe
    && is_empty o.changed_files
    && (text_eq o.status "failed" || text_eq o.status "needs-review")

-- An entry of the history stands for its text.
pub record HistoryEntry : Type 0 where
  pub attempt : ℕ
  pub status : String
  pub summary : String

abbrev after : List Event → Run → Run
after events run = (events ++ run.0, run.1)

abbrev abort_run : TaskOutcome → Run
abort_run last = ([], record { outcome = last; is_aborted = true })

abbrev pub close_replanned : TaskOutcome → ℕ → Option TaskOutcome → Run
close_replanned last n none = abort_run last
close_replanned last n (some outcome) =
    (attempt_completed n outcome.status ∷ [], record { outcome = outcome; is_aborted = false })

abbrev pub recovery_of : ℕ → Option Recovery
recovery_of attempt = if ltb 1 attempt then some retry else none

abbrev to_history : ℕ → TaskOutcome → HistoryEntry
to_history attempt o = record { attempt = attempt; status = o.status; summary = o.summary }

-- What follows an attempt: the end of the run, or the next round.
abbrev pub close_attempt : TaskOutcome → ℕ → Option TaskOutcome → (TaskOutcome → Run) → Run
close_attempt last attempt none next = abort_run last
close_attempt last attempt (some o) next = after (attempt_completed attempt o.status ∷ []) (
    if is_retryable_worker_outcome o
    then after (if ltb attempt max_attempts then worker_retry (suc attempt) ∷ [] else []) (next o)
    else ([], record { outcome = o; is_aborted = false }))

-- `is_stall` tests a risk for the first pattern, `is_blocked` a review item for the second;
-- `describe` is the text of a history entry.
module _ (is_stall is_blocked : String → Bool) (describe : HistoryEntry → String) where
  abbrev describe_all : List HistoryEntry → List String
  describe_all [] = []
  describe_all (h ∷ hs) = describe h ∷ describe_all hs

  pub outcome_of :
      Task → Task → ℕ → Option Recovery → List HistoryEntry → SubagentResult → TaskOutcome
  outcome_of original task attempt recovery history r = record {
    task_id = original.id;
    title = task.title;
    repo_id = original.repo_id;
    status = r.status;
    summary = r.summary;
    changed_files = r.changed_files;
    evidence = r.evidence ++ describe_all history;
    risks = r.risks;
    needs_review = r.needs_review;
    verification = r.verification;
    attempts = some attempt;
    recovery = recovery;
    execution_incomplete = some (
        text_eq r.status "needs-review"
        && (some_of is_stall r.risks || some_of is_blocked r.needs_review));
    retry_safe = some (is_empty r.changed_files);
  }

  -- `runAttempt`: its outcome, or `none` where it throws the abort on.
  pub run_attempt :
      Task → Task → ℕ → Option Recovery → List HistoryEntry → Spawn → Option TaskOutcome
  unfolding outcome_of failed_worker_outcome
  run_attempt original task attempt recovery history (finished r) =
      some (outcome_of original task attempt recovery history r)
  run_attempt original task attempt recovery history (threw message) =
      some (record (failed_worker_outcome task message) {
        attempts = some attempt;
        recovery = recovery;
      })
  run_attempt original task attempt recovery history aborted = none

  -- The end without a usable result.
  pub exhausted : TaskOutcome → List HistoryEntry → List Event × Completion
  exhausted last history = (
    [],
    record {
      outcome = record last {
        evidence = last.evidence ++ describe_all history;
        risks = last.risks ++ "Worker 在有限重试后仍未成功，且未获得可执行的恢复计划" ∷ [];
      };
      is_aborted = false;
    },
  )

  -- The attempt with the new plan.
  pub run_replanned : Task → Task → TaskOutcome → List HistoryEntry → Spawn → Run
  unfolding run_attempt
  run_replanned original task last history spawn =
      let n = suc max_attempts in
      after (attempt_started n (some replan) ∷ [])
        (close_replanned last n (run_attempt original task n (some replan) history spawn))

  -- What follows the attempts: the request for a new plan where there is a senior model.
  pub recover : Task → Option Replan → Spawn → TaskOutcome → List HistoryEntry → Run
  unfolding run_replanned exhausted
  recover original none spawn last history = exhausted last history
  recover original (some (replanned task)) spawn last history =
      after (replan_started ∷ replan_completed true ∷ [])
        (run_replanned original task last history spawn)
  recover original (some unusable) spawn last history =
      after (replan_started ∷ replan_completed false ∷ []) (exhausted last history)
  recover original (some (replan_threw message)) spawn last history =
      after (replan_started ∷ replan_completed false ∷ []) (
        exhausted last
          (history ++ record { attempt = 0; status = "replan failed"; summary = message } ∷ []))
  recover original (some replan_aborted) spawn last history =
      after (replan_started ∷ []) (abort_run last)

  -- The loop over the attempts, on the rounds left.
  pub attempts : Task → (ℕ → Spawn) → Option Replan → ℕ → ℕ → TaskOutcome → List HistoryEntry → Run
  unfolding run_attempt recover is_retryable_worker_outcome
  attempts task world senior zero attempt last history =
      if is_retryable_worker_outcome last
      then recover task senior (world (suc max_attempts)) last history
      else exhausted last history
  attempts task world senior (suc left) attempt last history =
      after (attempt_started attempt (recovery_of attempt) ∷ []) (
        close_attempt last attempt
          (run_attempt task task attempt (recovery_of attempt) history (world attempt))
          λ o.
            attempts task world senior left (suc attempt) o (history ++ to_history attempt o ∷ []))

  pub execute_conductor_worker : Task → (ℕ → Spawn) → Option Replan → Run
  unfolding attempts failed_worker_outcome
  execute_conductor_worker task world senior =
      attempts task world senior max_attempts 1 (failed_worker_outcome task "Worker 未开始执行") []
