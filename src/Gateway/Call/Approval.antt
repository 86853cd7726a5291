-- ===== src/Gateway/Call/Approval.antt =====
-- The approval in `ToolGateway.call` of packages/core/src/tools/toolGateway.ts, and a whole call.
use kross.Base.{
  Bool-cases, ℕ, ◌≡◌, refl, ◌≢◌, ◌⊎◌, inl, inr, ◌↔◌, true, false, some, List, [], ◌∷◌,
  String-discrete, arith, Option-cases,
}
use kross.Base.Maps.{get}
use kross.Base.Json.{Value}
use kross.Gateway.Types.{Action, allow, ask, deny, Decision}
use kross.Gateway.Retry.Laws.{resolve-max_attempts_positive}
use kross.Gateway.Retry.{resolve_tool_retry_policy}
use kross.Gateway.Registry.{Definition}
use kross.Gateway.Call.{
  invalid_input, aborted, not_found, Failure, Gateway, CallInput, Attempt, Event, started, Run,
  raised, unreachable, decide, gate, execute_call, call_tool, call,
}
use kross.Gateway.Call.Attempts.{is_closing, EndsOnce, attempts-EndsOnce, attempts-ne-unreachable}

-- The tool's execution has begun.
abbrev pub Starts : List Event → Type 0
Starts (started n v ∷ events) = Unit
Starts _ = ⊥

-- A call reaches a tool with an input that it accepts.
pub record Reaches (g : Gateway) (c : CallInput) (d : Definition) (parsed : Value) : Type 0 where
  pub running : c.aborted_at_entry ≡ false
  pub registered : get String-discrete c.name g.tools ≡ some d
  pub accepted : d.parse c.input ≡ some parsed

call-Reaches :
    (g : Gateway) (world : ℕ → Attempt) (c : CallInput) (d : Definition) (parsed : Value)
    → Reaches g c d parsed
    → call g world c ≡ gate g world c d parsed (decide g d parsed)
unfolding call call_tool
call-Reaches g world c d parsed r = ground arith

-- For a call that is not aborted at its entry and reaches a registered tool with an input that the
-- tool accepts: the trace of `call` begins with the start of the tool if and only if the policy
-- allows the call, or the policy asks and the caller has approved the call.
pub Starts-iff :
    (g : Gateway) (world : ℕ → Attempt) (c : CallInput) (d : Definition) (parsed : Value)
    → Reaches g c d parsed
    → Starts (call g world c).0 ↔ (
        ((decide g d parsed).action ≡ allow)
        ⊎ (((decide g d parsed).action ≡ ask) × (c.approved ≡ true)))
unfolding gate execute_call
Starts-iff g world c d parsed r =
    rw (call-Reaches g world c d parsed r) (λ h. ground arith, λ h. ground arith)

-- A property of runs that holds of the refusals and of every executed call holds of every call.
module _ {ℓ} (P : Run → Type ℓ) (g : Gateway) (world : ℕ → Attempt) (c : CallInput)
    (early : (e : Failure) → e ≢ unreachable → P ([], raised e))
    (refused : (e : Event) (f : Failure)
      → is_closing e ≡ true
      → f ≢ unreachable
      → P (e ∷ [], raised f))
    (executed : (d : Definition) (parsed : Value) → P (execute_call g world c d parsed)) where
  gate_cases :
      (d : Definition) (parsed : Value) (verdict : Decision) (a : Action)
      → verdict.action ≡ a
      → P (gate g world c d parsed verdict)
  unfolding gate execute_call
  gate_cases d parsed verdict allow e = rw (e, gate) (executed d parsed)
  gate_cases d parsed verdict deny e = rw (e, gate) (refused _ _ refl (λ h. cc))
  gate_cases d parsed verdict ask e = elim (Bool-cases c.approved) [
    | inl h ↦ rw (e, gate, h) (executed d parsed)
    | inr h ↦ rw (e, gate, h) (refused _ _ refl (λ h. cc))
  ]

  call_tool_cases : (d : Definition) → P (call_tool g world c d)
  unfolding call_tool
  call_tool_cases d = elim (Option-cases (d.parse c.input)) [
    | inl e ↦ rw (e, call_tool) (early invalid_input (λ h. cc))
    | inr (parsed, e) ↦
        rw (e, call_tool) (gate_cases d parsed (decide g d parsed) (decide g d parsed).action refl)
  ]

  pub call_cases : P (call g world c)
  unfolding call
  call_cases = elim (Bool-cases c.aborted_at_entry) [
    | inl h ↦ rw (h, call) (early aborted (λ e. cc))
    | inr h ↦ elim (Option-cases (get String-discrete c.name g.tools)) [
      | inl k ↦ rw (h, k, call) (early not_found (λ e. cc))
      | inr (d, k) ↦ rw (h, k, call) (call_tool_cases d)
    ]
  ]

execute_call-EndsOnce :
    (g : Gateway) (world : ℕ → Attempt) (c : CallInput) (d : Definition) (parsed : Value)
    → ((n : ℕ) → (world n).aborted_in_sleep ≡ false)
    → EndsOnce (execute_call g world c d parsed).0
unfolding execute_call
execute_call-EndsOnce g world c d parsed calm =
    attempts-EndsOnce (resolve_tool_retry_policy c.retry_setting d.retry g.default_retry)
      c.return_errors world _ 1 [] (omega arith)
      (resolve-max_attempts_positive c.retry_setting d.retry g.default_retry) calm

execute_call-ne-unreachable :
    (g : Gateway) (world : ℕ → Attempt) (c : CallInput) (d : Definition) (parsed : Value)
    → (execute_call g world c d parsed).1 ≢ raised unreachable
unfolding execute_call
execute_call-ne-unreachable g world c d parsed =
    attempts-ne-unreachable (resolve_tool_retry_policy c.retry_setting d.retry g.default_retry)
      c.return_errors world _ 1 [] (omega arith)
      (resolve-max_attempts_positive c.retry_setting d.retry g.default_retry)

-- For every gateway, environment and call, while no back-off sleep is aborted: the trace of `call`
-- is empty, or exactly one of its events closes the call (denied, approval required, completed,
-- failed or cancelled), and that event is the last one.
pub call-EndsOnce :
    (g : Gateway) (world : ℕ → Attempt) (c : CallInput)
    → ((n : ℕ) → (world n).aborted_in_sleep ≡ false)
    → ((call g world c).0 ≡ []) ⊎ EndsOnce (call g world c).0
call-EndsOnce g world c calm =
    call_cases (λ r. (r.0 ≡ []) ⊎ EndsOnce r.0) g world c (λ e h. inl refl)
      (λ e f h k. inr (rw (h, EndsOnce)))
      λ d parsed. inr (execute_call-EndsOnce g world c d parsed calm)

-- For every gateway, environment and call, `call` never ends in the code behind its retry loop.
pub call-ne-unreachable :
    (g : Gateway) (world : ℕ → Attempt) (c : CallInput) → (call g world c).1 ≢ raised unreachable
call-ne-unreachable g world c =
    call_cases (λ r. r.1 ≢ raised unreachable) g world c (λ e h. ground arith)
      (λ e f h k. ground arith) (execute_call-ne-unreachable g world c)
