-- ===== src/Gateway/Call.antt =====
-- `ToolGateway.call` and `inspectCall` of packages/core/src/tools/toolGateway.ts, with the abort
-- tests of packages/core/src/abort.ts. What a call meets outside the gateway, attempt by attempt,
-- is its environment: the race of `execute` against its timeout, and whether the signal is aborted.
-- The trace is the list of recorded events; the texts of summaries are left out.
pub mod Attempts
pub mod Observed
pub mod Approval
pub mod Closes
use Prim.Native.String.{◌++◌ as join_text}
use kross.Base.{
  ℕ, zero, suc, Bool, true, false, ◌&&◌, ◌||◌, Option, none, some, List, [], ◌∷◌, ◌++◌, String,
  if◌then◌else◌, ltb, String-discrete,
}
use kross.Base.Maps.{get}
use kross.Base.Json.{Value}
use kross.Gateway.Types.{
  Risk, Action, allow, ask, deny, Decision, Metadata, PolicyContext, Thrown, is_error_named,
}
use kross.Gateway.Retry.{
  Setting, ResolvedPolicy, resolve_tool_retry_policy, retry_backoff_ms, AttemptFailure, FailureData,
  format_tool_failure_observation,
}
use kross.Gateway.Registry.{Definition, Tools, to_metadata}

pub data Status : Type 0 where
  completed failed : Status

-- `recovery` is the hint that `classifyRuntimeError` finds for the summary of the result.
pub record HandlerResult : Type 0 where
  pub status : Option Status
  pub content : String
  pub recovery : String

pub data Execution : Type 0 where
  returned : HandlerResult → Execution
  threw : Thrown → Execution

-- One attempt's surroundings: the signal before and after the execution and during the back-off.
pub record Attempt : Type 0 where
  pub aborted_before : Bool
  pub execution : Execution
  pub aborted_after : Bool
  pub aborted_in_sleep : Bool

pub data Event : Type 0 where
  denied : Option String → Event
  approval_required : Option String → Value → Event
  started : ℕ → Value → Event
  retry : ℕ → Bool → ℕ → Event
  tool_completed : Status → ℕ → Event
  tool_failed : FailureData → Event
  cancelled : ℕ → Event

pub data Failure : Type 0 where
  aborted : Failure
  not_found : Failure
  invalid_input : Failure
  permission : Risk → Option String → Action → Failure
  tool_error : Thrown → Failure
  unreachable : Failure

pub data Outcome : Type 0 where
  success : Status → String → ℕ → Outcome
  observation : FailureData → Outcome
  raised : Failure → Outcome

abbrev pub Run : Type 0
Run = List Event × Outcome

-- What one round of the loop comes to: `isOperationAborted` catches an aborted signal before any
-- error, and the error named `AbortError`.
pub data Settled : Type 0 where
  cancelled_run : Settled
  done : HandlerResult → Settled
  caught : Thrown → Settled

unfoldable pub settle : Attempt → Settled
unfolding is_error_named
settle a = if a.aborted_before || a.aborted_after then cancelled_run else elim a.execution [
  | returned r ↦ done r
  | threw e ↦ if is_error_named e "AbortError" then cancelled_run else caught e
]

abbrev pub status_of : Option Status → Status
status_of none = completed
status_of (some s) = s

-- The content of the result: where the tool says that it failed, with the hint behind it.
abbrev pub answer : Status → HandlerResult → String
answer completed r = r.content
answer failed r = join_text r.content (join_text "\n\nRecovery: " r.recovery)

-- The end of a failed call: the last attempt's failure, or one that may not be retried.
give_up : ResolvedPolicy → Bool → ℕ → List AttemptFailure → Thrown → Run
unfolding format_tool_failure_observation
give_up policy return_errors attempt failures e =
    let report = format_tool_failure_observation failures policy.max_attempts in
    (
      (if ltb attempt policy.max_attempts then retry attempt false 0 ∷ [] else [])
          ++ tool_failed report ∷ [],
      if return_errors then observation report else raised (tool_error e),
    )

abbrev then_run : Event → Run → Run
then_run event run = (event ∷ run.0, run.1)

-- The back-off before the next round. An abort in the sleep leaves the call at once.
back_off : ResolvedPolicy → ℕ → Bool → Run → Run
unfolding retry_backoff_ms
back_off policy attempt aborted_in_sleep rest =
    let delay = retry_backoff_ms policy attempt in
    then_run (retry attempt true delay)
      (if ltb 0 delay && aborted_in_sleep then ([], raised aborted) else rest)

pub close_round : ResolvedPolicy → Bool → ℕ → List AttemptFailure → Attempt → Settled → Run → Run
unfolding give_up back_off
close_round policy return_errors attempt failures a cancelled_run rest =
    (cancelled attempt ∷ [], raised aborted)
close_round policy return_errors attempt failures a (done r) rest = (
  tool_completed (status_of r.status) attempt ∷ [],
  success (status_of r.status) (answer (status_of r.status) r) attempt,
)
close_round policy return_errors attempt failures a (caught e) rest =
    if ltb attempt policy.max_attempts && policy.retry_on e attempt
    then back_off policy attempt a.aborted_in_sleep rest
    else give_up policy return_errors attempt failures e

abbrev pub push_failure : List AttemptFailure → ℕ → Settled → List AttemptFailure
push_failure failures attempt (caught e) =
    failures ++ record { attempt = attempt; message = e.message } ∷ []
push_failure failures attempt _ = failures

-- The loop `for (attempt = 1; attempt <= maxAttempts; …)`, on the number of rounds left.
pub attempts : ResolvedPolicy → Bool → (ℕ → Attempt) → ℕ → ℕ → List AttemptFailure → Run
attempts policy return_errors world zero attempt failures = ([], raised unreachable)
attempts policy return_errors world (suc left) attempt failures =
    let step = settle (world attempt) in
    let failures' = push_failure failures attempt step in
    let rest = attempts policy return_errors world left (suc attempt) failures' in
    close_round policy return_errors attempt failures' (world attempt) step rest

pub record CallInput : Type 0 where
  pub name : String
  pub input : Value
  pub approved : Bool
  pub return_errors : Bool
  pub retry_setting : Setting
  -- the signal when the call begins
  pub aborted_at_entry : Bool

pub record Gateway : Type 0 where
  pub tools : Tools
  pub approval_policy : PolicyContext → Decision
  pub default_retry : Setting

abbrev or_static : Option (Value → Risk) → Risk → Value → Risk
or_static none risk input = risk
or_static (some resolve) risk input = resolve input

abbrev pub redacted : Option (Value → Value) → Value → Value
redacted none input = input
redacted (some redact) input = redact input

-- `definition.resolveRisk?.(parsedInput) ?? definition.risk`, and the decision on the call.
unfoldable pub resolved_risk : Definition → Value → Risk
resolved_risk d parsed = or_static d.resolve_risk d.risk parsed

unfoldable pub decide : Gateway → Definition → Value → Decision
unfolding resolved_risk to_metadata
decide g d parsed =
    g.approval_policy (record { tool = to_metadata d (resolved_risk d parsed); input = parsed })

-- The call once it is approved.
pub execute_call : Gateway → (ℕ → Attempt) → CallInput → Definition → Value → Run
unfolding resolve_tool_retry_policy attempts
execute_call g world c d parsed =
    let policy = resolve_tool_retry_policy c.retry_setting d.retry g.default_retry in
    then_run (started policy.max_attempts (redacted d.redact parsed))
      (attempts policy c.return_errors world policy.max_attempts 1 [])

-- The two refusals before the execution.
pub gate : Gateway → (ℕ → Attempt) → CallInput → Definition → Value → Decision → Run
unfolding resolved_risk
gate g world c d parsed verdict = elim verdict.action [
  | deny ↦
      (denied verdict.reason ∷ [], raised (permission (resolved_risk d parsed) verdict.reason deny))
  | ask ↦ if c.approved then execute_call g world c d parsed else (
    approval_required verdict.reason (redacted d.redact parsed) ∷ [],
    raised (permission (resolved_risk d parsed) verdict.reason ask),
  )
  | allow ↦ execute_call g world c d parsed
]

pub call_tool : Gateway → (ℕ → Attempt) → CallInput → Definition → Run
unfolding gate
call_tool g world c d = elim (d.parse c.input) [
  | none ↦ ([], raised invalid_input)
  | some parsed ↦ gate g world c d parsed (decide g d parsed)
]

pub call : Gateway → (ℕ → Attempt) → CallInput → Run
unfolding call_tool
call g world c =
    if c.aborted_at_entry then ([], raised aborted) else elim (get String-discrete c.name g.tools) [
      | none ↦ ([], raised not_found)
      | some d ↦ call_tool g world c d
    ]

pub data Inspection : Type 0 where
  inspected : Metadata → Decision → Inspection
  inspection_failed : Failure → Inspection

unfoldable pub inspect_call : Gateway → String → Value → Inspection
unfolding resolved_risk to_metadata decide
inspect_call g name input = elim (get String-discrete name g.tools) [
  | none ↦ inspection_failed not_found
  | some d ↦ elim (d.parse input) [
    | none ↦ inspection_failed invalid_input
    | some parsed ↦ inspected (to_metadata d (resolved_risk d parsed)) (decide g d parsed)
  ]
]
