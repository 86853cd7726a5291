-- ===== src/Gateway/Schedule.antt =====
-- `executeScheduledToolCalls` and `isIndependentRead` of
-- packages/core/src/runtime/toolLoopShared.ts. What each gateway call comes to is a parameter, and
-- so is whether the signal is aborted when a round begins.
pub mod Order
pub mod Complete
pub mod Reads
use text.Mathlib.Text.{starts_with}
use kross.Base.{
  ℕ, zero, suc, max, Bool, true, false, ◌&&◌, not, Option, none, some, List, [], ◌∷◌, ◌++◌, String,
  if◌then◌else◌, String-discrete, text_eq, length,
}
use kross.Base.Maps.{Map, get}
use kross.Base.Json.{Value}
use kross.Gateway.Types.{Metadata, Action, allow, is_risk, read}
use kross.Gateway.Retry.{unset}
use kross.Gateway.Call.{
  CallInput, Gateway, Failure, aborted, Inspection, inspected, inspection_failed, inspect_call,
}

pub record ToolCall : Type 0 where
  pub id : String
  pub name : String
  pub input : Value

pub record ToolMessage : Type 0 where
  pub tool_call_id : String
  pub name : String
  pub content : String

abbrev not_mcp_or_process : Option String → Bool
not_mcp_or_process none = true
not_mcp_or_process (some category) =
    not (starts_with category "mcp:") && not (text_eq category "process")

unfoldable pub is_independent_read : Option Metadata → Bool
is_independent_read none = false
is_independent_read (some tool) = is_risk tool.risk read && not_mcp_or_process tool.category

abbrev pub is_allow : Action → Bool
is_allow allow = true
is_allow _ = false

-- What the inner loop does with the candidate: take it, break, or throw.
pub data Candidate : Type 0 where
  joins stays : Candidate
  throws : Failure → Candidate

unfoldable pub judge : Inspection → Candidate
judge (inspection_failed e) = throws e
judge (inspected tool approval) =
    if is_allow approval.action && is_risk tool.risk read then joins else stays

unfoldable pub consider : Gateway → Map String Metadata → ToolCall → Candidate
unfolding judge inspect_call
consider g metadata c =
    if is_independent_read (get String-discrete c.name metadata)
    then judge (inspect_call g c.name c.input)
    else stays

-- The gateway call that the scheduler makes of a tool call; the signal is the caller's.
pub call_input : Bool → ToolCall → CallInput
call_input is_aborted c = record {
  name = c.name;
  input = c.input;
  approved = false;
  return_errors = true;
  retry_setting = unset;
  aborted_at_entry = is_aborted;
}

pub data Taken : Type 0 where
  taken : List ToolCall → List ToolCall → Taken
  failed : Failure → Taken

abbrev add_taken : ToolCall → Taken → Taken
add_taken c (taken batch queue) = taken (c ∷ batch) queue
add_taken c (failed e) = failed e

-- The inner loop, on the room left in the batch.
pub take_parallel : (ToolCall → Candidate) → ℕ → List ToolCall → Taken
take_parallel judge zero queue = taken [] queue
take_parallel judge (suc room) [] = taken [] []
take_parallel judge (suc room) (c ∷ queue) = elim (judge c) [
  | joins ↦ add_taken c (take_parallel judge room queue)
  | stays ↦ taken [] (c ∷ queue)
  | throws e ↦ failed e
]

-- `parallel.length > 0 ? parallel : [queue.shift() ?? first]`.
pub or_first : Taken → Taken
or_first (taken [] (c ∷ queue)) = taken (c ∷ []) queue
or_first t = t

-- A gateway call returns its content or throws.
pub data Reply : Type 0 where
  content : String → Reply
  raised : Failure → Reply

pub data Answers : Type 0 where
  answers : List ToolMessage → Answers
  rejected : Failure → Answers

abbrev add_answer : ToolCall → Reply → Answers → Answers
add_answer c (raised e) rest = rejected e
add_answer c (content text) (rejected e) = rejected e
add_answer c (content text) (answers messages) =
    answers (record { tool_call_id = c.id; name = c.name; content = text } ∷ messages)

-- `Promise.all` over the batch, and its messages in the batch's order.
pub answer_batch : (ToolCall → Reply) → List ToolCall → Answers
answer_batch perform [] = answers []
answer_batch perform (c ∷ batch) = add_answer c (perform c) (answer_batch perform batch)

-- The batches that were run, and the messages or the failure that ended the loop.
pub record Schedule : Type 0 where
  pub batches : List (List ToolCall)
  pub result : Answers

abbrev pub join_answers : List ToolMessage → Answers → Answers
join_answers messages (rejected e) = rejected e
join_answers messages (answers more) = answers (messages ++ more)

abbrev pub prepend : List ToolCall → Answers → Schedule → Schedule
prepend batch (rejected e) rest = record { batches = batch ∷ []; result = rejected e }
prepend batch (answers messages) rest = record {
  batches = batch ∷ rest.batches;
  result = join_answers messages rest.result;
}

abbrev pub stopped : Failure → Schedule
stopped e = record { batches = []; result = rejected e }

-- The rest of a round, once its batch is taken.
abbrev pub run_batch : (ToolCall → Reply) → Taken → (List ToolCall → Schedule) → Schedule
run_batch perform (failed e) next = stopped e
run_batch perform (taken batch rest) next = prepend batch (answer_batch perform batch) (next rest)

module _ (judge : ToolCall → Candidate) (perform : ToolCall → Reply) (room : ℕ)
    (aborted_at : ℕ → Bool) where
  -- The outer loop, on fuel: each round takes at least one call.
  pub rounds : ℕ → ℕ → List ToolCall → Schedule
  unfolding answer_batch take_parallel or_first
  rounds fuel n [] = record { batches = []; result = answers [] }
  rounds zero n (c ∷ queue) = stopped aborted
  rounds (suc fuel) n (c ∷ queue) = elim (aborted_at n) [
    | true ↦ stopped aborted
    | false ↦
        run_batch perform (or_first (take_parallel judge room (c ∷ queue))) (rounds fuel (suc n))
  ]

unfoldable pub execute_scheduled_tool_calls :
    (ToolCall → Candidate) → (ToolCall → Reply) → ℕ → (ℕ → Bool) → List ToolCall → Schedule
unfolding rounds
execute_scheduled_tool_calls judge perform max_parallel aborted_at calls =
    rounds judge perform (max 1 max_parallel) aborted_at (length calls) 0 calls
