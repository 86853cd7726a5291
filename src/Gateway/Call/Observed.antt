-- ===== src/Gateway/Call/Observed.antt =====
-- The outcome of the retry loop of `ToolGateway.call` in packages/core/src/tools/toolGateway.ts.
use Prim.Native.String.{◌++◌ as join_text}
use kross.Base.{
  Option, none, some, ◌≢◌, ◌⊎◌, inl, inr, ℕ, zero, suc, ◌+◌, ◌≤◌, ◌<◌, String, ◌≡◌, refl, Bool,
  true, List, [], ◌∷◌, ◌++◌, arith, length, length-append,
}
use kross.Gateway.Types.{Thrown}
use kross.Gateway.Retry.{ResolvedPolicy, AttemptFailure, format_tool_failure_observation}
use kross.Gateway.Call.{
  answer, Status, completed, failed, HandlerResult, Attempt, Outcome, Run, Settled, settle,
  status_of, close_round, push_failure, attempts, success, observation, raised, cancelled_run, done,
  caught,
}

-- The failures are those of the attempts `n`, `n + 1`, … in order.
abbrev Numbered : ℕ → List AttemptFailure → Type 0
Numbered n [] = Unit
Numbered n (f ∷ fs) = (f.attempt ≡ n) × Numbered (suc n) fs

Numbered-append :
    (n k : ℕ) (fs : List AttemptFailure) (m : String)
    → Numbered n fs
    → k ≡ n + length fs
    → Numbered n (fs ++ record { attempt = k; message = m } ∷ [])
Numbered-append n k [] m h e = (omega arith, tt)
Numbered-append n k (f ∷ fs) m h e = (h.0, Numbered-append (suc n) k fs m h.1 (omega arith))

push_failure-Numbered :
    (attempt : ℕ) (failures : List AttemptFailure) (s : Settled)
    → Numbered 1 failures
    → suc (length failures) ≡ attempt
    → Numbered 1 (push_failure failures attempt s)
push_failure-Numbered attempt failures cancelled_run n m = n
push_failure-Numbered attempt failures (done r) n m = n
push_failure-Numbered attempt failures (caught e) n m =
    Numbered-append 1 attempt failures e.message n (omega arith)

length-push_failure :
    (attempt : ℕ) (failures : List AttemptFailure) (s : Settled) (x : Thrown)
    → s ≡ caught x
    → suc (length failures) ≡ attempt
    → suc (length (push_failure failures attempt s)) ≡ suc attempt
length-push_failure attempt failures cancelled_run x e m = cc
length-push_failure attempt failures (done r) x e m = cc
length-push_failure attempt failures (caught y) x e m =
    omega (arith, length-append failures (record { attempt = attempt; message = y.message } ∷ []))

-- The content that the caller gets of a tool's result: as it is, or with the recovery hint behind it
-- where the tool itself reports a failure.
abbrev Answered : HandlerResult → Status → String → Type 0
Answered r status content =
    ((r.status ≢ some failed) × (status ≡ completed) × (content ≡ r.content))
    ⊎ ((r.status ≡ some failed)
        × (status ≡ failed)
        × (content ≡ join_text r.content (join_text "\n\nRecovery: " r.recovery)))

Answered-answer :
    (r : HandlerResult) (s : Option Status)
    → r.status ≡ s
    → Answered r (status_of s) (answer (status_of s) r)
Answered-answer r none e = inl ((λ h. cc), refl, refl)
Answered-answer r (some completed) e = inl ((λ h. cc), refl, refl)
Answered-answer r (some failed) e = inr (e, refl, refl)

module _ (policy : ResolvedPolicy) (return_errors : Bool) (world : ℕ → Attempt) where
  -- What the caller is told agrees with what the attempts did.
  abbrev pub Reported : Outcome → Type 0
  Reported (success status content n) =
      (1 ≤ n)
      × (n ≤ policy.max_attempts)
      × (r : HandlerResult) × (settle (world n) ≡ done r)
      × Answered r status content
  Reported (observation report) =
      (return_errors ≡ true)
      × (report.attempts ≡ length report.errors)
      × (1 ≤ report.attempts)
      × (report.attempts ≤ policy.max_attempts)
      × Numbered 1 report.errors
  Reported (raised e) = Unit

  close_round-caught :
      (attempt : ℕ) (failures : List AttemptFailure) (x : Thrown) (rest : Run)
      → 1 ≤ attempt
      → attempt ≤ policy.max_attempts
      → Numbered 1 (push_failure failures attempt (caught x))
      → suc (length failures) ≡ attempt
      → (attempt < policy.max_attempts → Reported rest.1)
      → Reported
          (close_round policy return_errors attempt
            (push_failure failures attempt (caught x))
            (world attempt)
            (caught x)
            rest).1
  unfolding close_round format_tool_failure_observation
  close_round-caught attempt failures x rest l u n m k =
      ground
        (arith, k, length-append failures (record { attempt = attempt; message = x.message } ∷ []))

  close_round-Reported :
      (attempt : ℕ) (failures : List AttemptFailure) (s : Settled) (rest : Run)
      → settle (world attempt) ≡ s
      → 1 ≤ attempt
      → attempt ≤ policy.max_attempts
      → Numbered 1 (push_failure failures attempt s)
      → suc (length failures) ≡ attempt
      → ((x : Thrown) → s ≡ caught x → attempt < policy.max_attempts → Reported rest.1)
      → Reported
          (close_round policy return_errors attempt
            (push_failure failures attempt s)
            (world attempt)
            s
            rest).1
  unfolding close_round format_tool_failure_observation
  close_round-Reported attempt failures cancelled_run rest e l u n m k = tt
  close_round-Reported attempt failures (done r) rest e l u n m k =
      (l, u, r, e, Answered-answer r r.status refl)
  close_round-Reported attempt failures (caught x) rest e l u n m k =
      close_round-caught attempt failures x rest l u n m (k x refl)

  -- The loop from its first round on.
  attempts-Reported :
      (left attempt : ℕ) (failures : List AttemptFailure)
      → attempt + left ≡ suc policy.max_attempts
      → 1 ≤ left
      → 1 ≤ attempt
      → Numbered 1 failures
      → suc (length failures) ≡ attempt
      → Reported (attempts policy return_errors world left attempt failures).1
  unfolding attempts
  attempts-Reported zero attempt failures e h l n m = absurd (omega arith)
  attempts-Reported (suc left) attempt failures e h l n m =
      close_round-Reported attempt failures (settle (world attempt)) _ refl l (omega arith)
        (push_failure-Numbered attempt failures (settle (world attempt)) n m) m
        λ x c lt.
          attempts-Reported left (suc attempt) _ (omega arith) (omega arith) (omega arith)
            (push_failure-Numbered attempt failures (settle (world attempt)) n m)
            (length-push_failure attempt failures (settle (world attempt)) x c m)

  -- If at least one attempt is allowed, the outcome of the loop reports its attempts truly: a
  -- success has a number from 1 to `maxAttempts`, and this attempt returned a result: where its
  -- status is `failed`, the success has this status and the content with the recovery hint behind
  -- it, and else the status `completed` and the content as it is; a failure is observed only where
  -- errors are to be returned, and lists errors numbered 1, 2, … without a gap, counted right, at
  -- least one and at most `maxAttempts`.
  pub attempts-start-Reported :
      1 ≤ policy.max_attempts
      → Reported (attempts policy return_errors world policy.max_attempts 1 []).1
  attempts-start-Reported h =
      attempts-Reported policy.max_attempts 1 [] (omega arith) h (omega arith) tt refl
