-- ===== src/Gateway/Call/Closes.antt =====
-- How the trace of `ToolGateway.call` of packages/core/src/tools/toolGateway.ts ends.
use kross.Base.{
  subst, sym, All, ℕ, zero, suc, ◌+◌, ◌≤◌, ◌<◌, ◌≡◌, refl, ◌⊎◌, inl, inr, Bool, true, false, ◌&&◌,
  List, [], ◌∷◌, arith, ltb, Bool-cases,
}
use kross.Base.Json.{Value}
use kross.Gateway.Retry.{
  ResolvedPolicy, AttemptFailure, retry_backoff_ms, resolve_tool_retry_policy,
}
use kross.Gateway.Retry.Laws.{resolve-max_attempts_positive}
use kross.Gateway.Registry.{Definition}
use kross.Gateway.Call.{
  redacted, aborted, Attempt, Event, started, retry, raised, Run, Settled, cancelled_run, done,
  caught, settle, close_round, attempts, back_off, Gateway, CallInput, execute_call, call,
}
use kross.Gateway.Call.Attempts.{is_closing, EndsOnce}
use kross.Gateway.Call.Approval.{call_cases}

-- No event closes the call, and the last one announces a further attempt after a pause, in which
-- the signal is aborted.
pub data EndsOpen (world : ℕ → Attempt) : List Event → Type 0 where
  in_pause :
      {n delay : ℕ}
      → 0 < delay
      → (world n).aborted_in_sleep ≡ true
      → EndsOpen world (retry n true delay ∷ [])
  later :
      {e : Event} {events : List Event}
      → is_closing e ≡ false
      → EndsOpen world events
      → EndsOpen world (e ∷ events)

-- Where the event announces a further attempt after a pause, the signal is quiet in the pause.
abbrev pub IsQuiet : (ℕ → Attempt) → Event → Type 0
IsQuiet world (retry n true delay) = (ltb 0 delay && (world n).aborted_in_sleep) ≡ false
IsQuiet world _ = Unit

-- The run closes the call once, at its end, and no pause is aborted; or it raises the abort of a
-- pause.
abbrev pub Closes : (ℕ → Attempt) → Run → Type 0
Closes world run =
    (EndsOnce run.0 × All (IsQuiet world) run.0) ⊎ (EndsOpen world run.0 × (run.1 ≡ raised aborted))

closing-IsQuiet : (world : ℕ → Attempt) (e : Event) → is_closing e ≡ true → IsQuiet world e
closing-IsQuiet world (retry n true delay) h = cc
closing-IsQuiet world (retry n false delay) h = tt
closing-IsQuiet world _ h = tt

Closes-step :
    (world : ℕ → Attempt) (e : Event) (run : Run)
    → is_closing e ≡ false
    → IsQuiet world e
    → Closes world run
    → Closes world (e ∷ run.0, run.1)
Closes-step world e run h q (inl (once, quiet)) = inl (rw (h, EndsOnce) once, (q, quiet))
Closes-step world e run h k (inr (open_end, q)) = inr (later h open_end, q)

module _ (policy : ResolvedPolicy) (return_errors : Bool) (world : ℕ → Attempt) where
  back_off-Closes :
      (attempt : ℕ) (rest : Run)
      → Closes world rest
      → Closes world (back_off policy attempt (world attempt).aborted_in_sleep rest)
  unfolding back_off
  back_off-Closes attempt rest k =
      elim (Bool-cases
        (ltb 0 (retry_backoff_ms policy attempt) && (world attempt).aborted_in_sleep)) [
          | inl h ↦ rw (h, back_off) (inr (in_pause (ground arith) (ground arith), refl))
          | inr h ↦ subst (Closes world) (sym (goes_on h)) (
              Closes-step world (retry attempt true (retry_backoff_ms policy attempt)) rest refl h
                k)
        ]
    where
      goes_on :
          (ltb 0 (retry_backoff_ms policy attempt) && (world attempt).aborted_in_sleep) ≡ false
          → back_off policy attempt (world attempt).aborted_in_sleep rest
            ≡ (retry attempt true (retry_backoff_ms policy attempt) ∷ rest.0, rest.1)
      goes_on h = rw (h, back_off) refl

  close_round-Closes :
      (attempt : ℕ) (failures : List AttemptFailure) (s : Settled) (rest : Run)
      → (attempt < policy.max_attempts → Closes world rest)
      → Closes world (close_round policy return_errors attempt failures (world attempt) s rest)
  unfolding close_round
  close_round-Closes attempt failures cancelled_run rest k = inl (refl, (tt, tt))
  close_round-Closes attempt failures (done r) rest k = inl (refl, (tt, tt))
  close_round-Closes attempt failures (caught e) rest k =
      elim (Bool-cases (ltb attempt policy.max_attempts && policy.retry_on e attempt)) [
        | inl h ↦ rw (h, close_round) (back_off-Closes attempt rest (k (ground arith)))
        | inr h ↦ rw (h, close_round) (inl (ground arith, ground arith))
      ]

  attempts-Closes :
      (left attempt : ℕ) (failures : List AttemptFailure)
      → attempt + left ≡ suc policy.max_attempts
      → 1 ≤ left
      → Closes world (attempts policy return_errors world left attempt failures)
  unfolding attempts
  attempts-Closes zero attempt failures e h = absurd (omega arith)
  attempts-Closes (suc left) attempt failures e h =
      close_round-Closes attempt _ (settle (world attempt)) _
        λ lt. attempts-Closes left (suc attempt) _ (omega arith) (omega arith)

execute_call-Closes :
    (g : Gateway) (world : ℕ → Attempt) (c : CallInput) (d : Definition) (parsed : Value)
    → Closes world (execute_call g world c d parsed)
unfolding execute_call
execute_call-Closes g world c d parsed =
    let policy = resolve_tool_retry_policy c.retry_setting d.retry g.default_retry in
    Closes-step world (started policy.max_attempts (redacted d.redact parsed)) _ refl tt (
      attempts-Closes policy c.return_errors world policy.max_attempts 1 [] (omega arith)
        (resolve-max_attempts_positive c.retry_setting d.retry g.default_retry))

-- For every gateway, environment and call, also where a back-off sleep is aborted: the trace of
-- `call` is empty; or exactly one of its events closes the call, that event is the last one, and no
-- pause that the trace announces is aborted; or no event closes it, the last event announces a
-- further attempt after a pause, the environment aborts the signal in this pause, and the call
-- raises the abort.
pub call-Closes :
    (g : Gateway) (world : ℕ → Attempt) (c : CallInput)
    → ((call g world c).0 ≡ []) ⊎ Closes world (call g world c)
call-Closes g world c =
    call_cases (λ r. (r.0 ≡ []) ⊎ Closes world r) g world c (λ e h. inl refl)
      (λ e f h k. inr (inl (rw (h, EndsOnce), (closing-IsQuiet world e h, tt))))
      λ d parsed. inr (execute_call-Closes g world c d parsed)
