-- ===== src/Gateway/Call/Attempts.antt =====
-- The retry loop of `ToolGateway.call` in packages/core/src/tools/toolGateway.ts.
use kross.Base.{
  ℕ, zero, suc, ◌+◌, ◌≤◌, ◌<◌, ◌≡◌, refl, ◌≢◌, Bool, true, false, List, [], ◌∷◌, arith,
}
use kross.Gateway.Retry.{ResolvedPolicy, AttemptFailure}
use kross.Gateway.Call.{
  Attempt, Event, started, retry, unreachable, raised, Run, Settled, cancelled_run, done, caught,
  settle, close_round, attempts,
}

-- An event that closes a call.
abbrev pub is_closing : Event → Bool
is_closing (started n v) = false
is_closing (retry n b d) = false
is_closing _ = true

-- The events hold one closing event, and it is the last.
abbrev pub EndsOnce : List Event → Type 0
EndsOnce [] = ⊥
EndsOnce (e ∷ events) = elim (is_closing e) [ true ↦ events ≡ [] | false ↦ EndsOnce events ]

abbrev pub count_retries : List Event → ℕ
count_retries [] = 0
count_retries (retry n true d ∷ events) = suc (count_retries events)
count_retries (e ∷ events) = count_retries events

module _ (policy : ResolvedPolicy) (return_errors : Bool) (world : ℕ → Attempt) where
  close_round-EndsOnce :
      (attempt : ℕ) (failures : List AttemptFailure) (a : Attempt) (s : Settled) (rest : Run)
      → a.aborted_in_sleep ≡ false
      → (attempt < policy.max_attempts → EndsOnce rest.0)
      → EndsOnce (close_round policy return_errors attempt failures a s rest).0
  unfolding close_round
  close_round-EndsOnce attempt failures a cancelled_run rest h k = refl
  close_round-EndsOnce attempt failures a (done r) rest h k = refl
  close_round-EndsOnce attempt failures a (caught e) rest h k = ground (arith, k)

  -- While no sleep is aborted, the loop records one closing event, at its end.
  pub attempts-EndsOnce :
      (left attempt : ℕ) (failures : List AttemptFailure)
      → attempt + left ≡ suc policy.max_attempts
      → 1 ≤ left
      → ((n : ℕ) → (world n).aborted_in_sleep ≡ false)
      → EndsOnce (attempts policy return_errors world left attempt failures).0
  unfolding attempts
  attempts-EndsOnce zero attempt failures e h calm = absurd (omega arith)
  attempts-EndsOnce (suc left) attempt failures e h calm =
      close_round-EndsOnce attempt _ (world attempt) (settle (world attempt)) _ (calm attempt)
        λ lt. attempts-EndsOnce left (suc attempt) _ (omega arith) (omega arith) calm

  close_round-ne-unreachable :
      (attempt : ℕ) (failures : List AttemptFailure) (a : Attempt) (s : Settled) (rest : Run)
      → (attempt < policy.max_attempts → rest.1 ≢ raised unreachable)
      → (close_round policy return_errors attempt failures a s rest).1 ≢ raised unreachable
  unfolding close_round
  close_round-ne-unreachable attempt failures a cancelled_run rest k = λ h. cc
  close_round-ne-unreachable attempt failures a (done r) rest k = λ h. cc
  close_round-ne-unreachable attempt failures a (caught e) rest k = ground (arith, k)

  -- The code behind the loop is never reached.
  pub attempts-ne-unreachable :
      (left attempt : ℕ) (failures : List AttemptFailure)
      → attempt + left ≡ suc policy.max_attempts
      → 1 ≤ left
      → (attempts policy return_errors world left attempt failures).1 ≢ raised unreachable
  unfolding attempts
  attempts-ne-unreachable zero attempt failures e h = absurd (omega arith)
  attempts-ne-unreachable (suc left) attempt failures e h =
      close_round-ne-unreachable attempt _ (world attempt) (settle (world attempt)) _
        λ lt. attempts-ne-unreachable left (suc attempt) _ (omega arith) (omega arith)

  close_round-count_retries :
      (attempt left : ℕ) (failures : List AttemptFailure) (a : Attempt) (s : Settled) (rest : Run)
      → attempt + suc left ≡ suc policy.max_attempts
      → (attempt < policy.max_attempts → suc (count_retries rest.0) ≤ left)
      → suc (count_retries (close_round policy return_errors attempt failures a s rest).0)
        ≤ suc left
  unfolding close_round
  close_round-count_retries attempt left failures a cancelled_run rest e k = omega arith
  close_round-count_retries attempt left failures a (done r) rest e k = omega arith
  close_round-count_retries attempt left failures a (caught x) rest e k = ground (arith, k)

  -- If the rounds left and the attempt number add up to `maxAttempts` and one, and a round is left,
  -- then the loop announces fewer further attempts than it has rounds left.
  pub attempts-count_retries :
      (left attempt : ℕ) (failures : List AttemptFailure)
      → attempt + left ≡ suc policy.max_attempts
      → 1 ≤ left
      → suc (count_retries (attempts policy return_errors world left attempt failures).0) ≤ left
  unfolding attempts
  attempts-count_retries zero attempt failures e h = absurd (omega arith)
  attempts-count_retries (suc left) attempt failures e h =
      close_round-count_retries attempt left _ (world attempt) (settle (world attempt)) _ e
        λ lt. attempts-count_retries left (suc attempt) _ (omega arith) (omega arith)
