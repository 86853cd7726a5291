-- ===== src/Runtime/CompleteLoop.antt =====
-- `runCompleteToolLoop` of packages/core/src/runtime/completeToolLoop.ts over the thread, the
-- governor, the scheduler of tool calls and the stall detector. What the model answers, what the
-- calls come to, the abort signal and the texts are arguments. The estimate of a message stays the
-- same throughout: the calibration from usage is left out, and so are the callbacks.
use kross.Base.{ℕ, zero, suc, String, Bool, true, false, Option, none, some, List, [], ◌∷◌}
use kross.Session.ContextPolicy.{ContextPolicy}
use kross.Session.Stall.{Observation, Detector, new_detector, observe, recover, stalled}
use kross.Context.Tokens.{Text, LlmMessage}
use kross.Context.Thread.{
  ConversationThread, begin_turn, commit_turn, append_assistant, append_tool_result,
}
use kross.Context.Edits.{build_messages}
use kross.Context.Aging.{Texts}
use kross.Context.Stages.{Surroundings}
use kross.Context.Governor.{Governed, govern}
use kross.Gateway.Schedule.{
  ToolCall, ToolMessage, Candidate, Reply, Answers, execute_scheduled_tool_calls, answers, rejected,
}
pub mod Turns
pub mod Ends

pub record Response : Type 0 where
  pub text : Text
  pub tool_calls : List ToolCall

-- The places of `throwIfAborted` in an iteration.
pub data Place : Type 0 where
  at_head behind_request behind_response behind_calls : Place

-- What the loop meets in each iteration. A model client that throws gives nothing; the Boolean says
-- that the system prompt carries the recovery text.
pub record World : Type 0 where
  pub budget : ℕ → Bool → ℕ
  pub around : ℕ → Surroundings
  pub complete : ℕ → Bool → List LlmMessage → Option Response
  pub soft_land : List LlmMessage → Option Text
  pub judge : ℕ → ToolCall → Candidate
  pub perform : ℕ → ToolCall → Reply
  pub scheduler_aborted : ℕ → ℕ → Bool
  pub aborted_at : ℕ → Place → Bool
  pub trim : Text → Text
  pub units : String → Text
  pub fingerprint : List ToolCall → List ToolMessage → String
  pub empty_summary : Text
  pub stalled_summary : Text
  pub limit_summary : Text

-- The loop returns a summary, or throws; it would go on for ever where the governor does.
pub data Run : Type 0 where
  returned : Text → ConversationThread → Run
  threw : ConversationThread → Run
  diverged : Run

abbrev pub max_parallel_read_tools : ℕ
max_parallel_read_tools = 4

abbrev pub on_thread :
    Option ConversationThread → ConversationThread → (ConversationThread → Run) → Run
on_thread none before next = threw before
on_thread (some t) before next = next t

abbrev pub on_governed : Option Governed → (ConversationThread → Run) → Run
on_governed none next = diverged
on_governed (some g) next = elim g.maintenance [
  | none ↦ threw g.thread
  | some results ↦ next g.thread
]

abbrev pub on_response : Option Response → ConversationThread → (Response → Run) → Run
on_response none t next = threw t
on_response (some r) t next = next r

abbrev pub unless_aborted : Bool → ConversationThread → Run → Run
unless_aborted true t run = threw t
unless_aborted false t run = run

-- `a || b`.
abbrev pub or_text : Text → Text → Text
or_text [] b = b
or_text (c ∷ a) b = c ∷ a

module _ (estimate : LlmMessage → ℕ) (texts : Texts) (policy : ContextPolicy) (w : World) where
  unfoldable pub commit_with : Text → ConversationThread → Run
  unfolding commit_turn
  commit_with summary t = on_thread (commit_turn estimate t) t (returned summary)

  unfoldable pub finish : Text → ConversationThread → Run
  unfolding append_assistant commit_with
  finish summary t = on_thread (append_assistant estimate summary [] t) t (commit_with summary)

  -- No tool call: a text that is not empty is appended.
  unfoldable pub answer : Text → ConversationThread → Run
  unfolding finish
  answer [] t = commit_with w.empty_summary t
  answer (c ∷ text) t = finish (c ∷ text) t

  unfoldable pub append_results :
      ℕ → List ToolMessage → ConversationThread → Option ConversationThread
  unfolding append_tool_result
  append_results iteration [] t = some t
  append_results iteration (m ∷ ms) t =
      elim (append_tool_result estimate
        (record {
          tool_call_id = m.tool_call_id;
          name = m.name;
          content = w.units m.content;
          summary = none;
          iteration = some iteration;
        })
        t) [ none ↦ none | some t' ↦ append_results iteration ms t' ]

  -- The next iteration, with what it begins with: the last text, whether the recovery text is due,
  -- the detector and the thread.
  abbrev pub Next : Type 0
  Next = Text → Bool → Detector → ConversationThread → Run

  unfoldable pub after_observation : Text → Observation × Detector → ConversationThread → Next → Run
  unfolding finish
  after_observation text (o, d) t next = elim o.state [
    | stalled ↦ finish w.stalled_summary t
    | recover ↦ next text true d t
    | _ ↦ next text false d t
  ]

  abbrev pub on_answers :
      ℕ → List ToolCall → Text → Detector → Answers → ConversationThread → Next → Run
  on_answers iteration calls text d (rejected e) t next = threw t
  on_answers iteration calls text d (answers ms) t next =
      unless_aborted (w.aborted_at iteration behind_calls) t (
        on_thread (append_results iteration ms t) t
          (λ t'. after_observation text (observe (w.fingerprint calls ms) d) t' next))

  unfoldable pub run_calls :
      ℕ → List ToolCall → Text → Text → Detector → ConversationThread → Next → Run
  unfolding append_assistant execute_scheduled_tool_calls observe append_results after_observation
  run_calls iteration calls raw text d t next =
      on_thread (append_assistant estimate raw calls t) t λ t'.
        on_answers iteration calls text d
          (execute_scheduled_tool_calls (w.judge iteration) (w.perform iteration)
            max_parallel_read_tools (w.scheduler_aborted iteration) calls).result
          t' next

  unfoldable pub respond : ℕ → Response → Detector → ConversationThread → Next → Run
  unfolding answer run_calls
  respond iteration r d t next = elim r.tool_calls [
    | [] ↦ answer (w.trim r.text) t
    | c ∷ calls ↦ run_calls iteration (c ∷ calls) r.text (w.trim r.text) d t next
  ]

  -- The request of an iteration: governed, sent and answered.
  unfoldable pub request : ℕ → Bool → Detector → ConversationThread → Next → Run
  unfolding govern build_messages respond
  request iteration recovery d t next =
      on_governed
        (govern estimate texts policy (w.budget iteration recovery) (w.around iteration) t)
        λ t'. unless_aborted (w.aborted_at iteration behind_request) t' (
          on_response (w.complete iteration recovery (build_messages t')) t' λ r.
            unless_aborted (w.aborted_at iteration behind_response) t'
              (respond iteration r d t' next))

  abbrev pub on_soft : Option Text → Text → ConversationThread → Run
  on_soft none last t = threw t
  on_soft (some text) last t = finish (or_text (w.trim text) (or_text last w.limit_summary)) t

  -- Behind the last iteration.
  unfoldable pub land : ℕ → Text → ConversationThread → Run
  unfolding govern build_messages finish
  land iteration last t = unless_aborted (w.aborted_at iteration at_head) t (
      on_governed (govern estimate texts policy (w.budget iteration false) (w.around iteration) t)
        λ t'. on_soft (w.soft_land (build_messages t')) last t')

  -- The loop, on the iterations that are left.
  unfoldable pub iterate : ℕ → ℕ → Text → Bool → Detector → ConversationThread → Run
  unfolding request land
  iterate zero iteration last recovery d t = land iteration last t
  iterate (suc left) iteration last recovery d t =
      unless_aborted (w.aborted_at iteration at_head) t (
        request iteration recovery d (record t { current_iteration = iteration })
          (iterate left (suc iteration)))

  -- A turn that is open makes `beginTurn` throw.
  unfoldable pub run_complete_tool_loop : Text → ℕ → ConversationThread → Run
  unfolding begin_turn iterate new_detector
  run_complete_tool_loop prompt max_iterations t = elim (begin_turn estimate prompt t) [
    | none ↦ threw t
    | some (turn, t') ↦ iterate max_iterations 1 [] false (new_detector none) t'
  ]
