-- ===== src/Conductor/Execution/Retries.antt =====
-- The attempts that `executeConductorWorker` of packages/core/src/runtime/conductorExecution.ts
-- starts.
use kross.Base.{
  subst, ℕ, zero, suc, ◌+◌, ◌-◌, ◌≤◌, ◌≡◌, refl, ◌⊎◌, inl, inr, Bool, true, Option, none, some,
  List, [], String, arith, All, text_eq_iff, Bool-cases, All-append,
}
use kross.Conductor.Plan.{Task}
use kross.Conductor.Outcome.{replan, Recovery, TaskOutcome}
use kross.Conductor.Execution.{
  close_attempt, recovery_of, close_replanned, Spawn, finished, threw, aborted, Replan, replanned,
  unusable, replan_threw, replan_aborted, Event, attempt_started, Run, max_attempts, HistoryEntry,
  is_retryable_worker_outcome, run_attempt, exhausted, run_replanned, recover, attempts,
  execute_conductor_worker,
}

-- The worker returned, changed no file, and did not succeed.
abbrev EndedSafely : Spawn → Type 0
EndedSafely (finished r) =
    (r.changed_files ≡ []) × ((r.status ≡ "failed") ⊎ (r.status ≡ "needs-review"))
EndedSafely _ = ⊥

-- An attempt after the first follows one that ended safely, and there are three at most.
abbrev pub IsJustified : (ℕ → Spawn) → Event → Type 0
IsJustified world (attempt_started n r) =
    (n ≤ suc max_attempts) × ((n ≡ 1) ⊎ EndedSafely (world (n - 1)))
IsJustified world e = Unit

safe_before :
    (world : ℕ → Spawn) (attempt : ℕ)
    → attempt + 0 ≡ suc max_attempts
    → (attempt ≡ 1) ⊎ EndedSafely (world (attempt - 1))
    → EndedSafely (world max_attempts)
safe_before world attempt e (inl q) = absurd (omega arith)
safe_before world attempt e (inr s) =
    let p : attempt - 1 ≡ max_attempts = omega arith in subst (λ n. EndedSafely (world n)) p s

close_replanned-IsJustified :
    (world : ℕ → Spawn) (last : TaskOutcome) (n : ℕ) (o : Option TaskOutcome)
    → All (IsJustified world) (close_replanned last n o).0
close_replanned-IsJustified world last n none = tt
close_replanned-IsJustified world last n (some o) = (tt, tt)

close_attempt-IsJustified :
    (world : ℕ → Spawn) (last : TaskOutcome) (attempt : ℕ) (r : Option TaskOutcome)
    (next : TaskOutcome → Run)
    → ((o : TaskOutcome)
        → r ≡ some o
        → is_retryable_worker_outcome o ≡ true
        → All (IsJustified world) (next o).0)
    → All (IsJustified world) (close_attempt last attempt r next).0
close_attempt-IsJustified world last attempt none next k = tt
close_attempt-IsJustified world last attempt (some o) next k =
    elim (Bool-cases (is_retryable_worker_outcome o)) [
      | inl h ↦ rw h (tt, All-append (IsJustified world) _ (next o).0 (ground arith) (k o refl h))
      | inr h ↦ rw h (tt, tt)
    ]

module _ (is_stall is_blocked : String → Bool) (describe : HistoryEntry → String) where
  retryable-EndedSafely :
      (original task : Task) (attempt : ℕ) (recovery : Option Recovery)
      (history : List HistoryEntry) (spawn : Spawn) (o : TaskOutcome)
      → run_attempt is_stall is_blocked describe original task attempt recovery history spawn
        ≡ some o
      → is_retryable_worker_outcome o ≡ true
      → EndedSafely spawn
  unfolding run_attempt is_retryable_worker_outcome
  retryable-EndedSafely original task attempt recovery history (finished r) o e h =
      ground (arith, text_eq_iff r.status "failed", text_eq_iff r.status "needs-review")
  retryable-EndedSafely original task attempt recovery history (threw m) o e h = ground arith
  retryable-EndedSafely original task attempt recovery history aborted o e h = cc

  replanned_end :
      (task t : Task) (world : ℕ → Spawn) (last : TaskOutcome) (history : List HistoryEntry)
      → All
          (IsJustified world)
          (close_replanned last (suc max_attempts) (
            run_attempt is_stall is_blocked describe task t
              (suc max_attempts)
              (some replan)
              history
              (world (suc max_attempts)))).0
  replanned_end task t world last history =
      close_replanned-IsJustified world last (suc max_attempts) _

  recover-IsJustified :
      (task : Task) (world : ℕ → Spawn) (senior : Option Replan) (last : TaskOutcome)
      (history : List HistoryEntry)
      → EndedSafely (world max_attempts)
      → All
          (IsJustified world)
          (recover is_stall is_blocked describe task senior
            (world (suc max_attempts))
            last
            history).0
  unfolding recover run_replanned exhausted
  recover-IsJustified task world none last history s = tt
  recover-IsJustified task world (some (replanned t)) last history s =
      (tt, (tt, ((omega arith, inr s), replanned_end task t world last history)))
  recover-IsJustified task world (some unusable) last history s = (tt, (tt, tt))
  recover-IsJustified task world (some (replan_threw m)) last history s = (tt, (tt, tt))
  recover-IsJustified task world (some replan_aborted) last history s = (tt, tt)

  attempts-IsJustified :
      (task : Task) (world : ℕ → Spawn) (senior : Option Replan) (left attempt : ℕ)
      (last : TaskOutcome) (history : List HistoryEntry)
      → attempt + left ≡ suc max_attempts
      → (attempt ≡ 1) ⊎ EndedSafely (world (attempt - 1))
      → All
          (IsJustified world)
          (attempts is_stall is_blocked describe task world senior left attempt last history).0
  unfolding attempts
  attempts-IsJustified task world senior zero attempt last history e s =
      elim (Bool-cases (is_retryable_worker_outcome last)) [
        | inl h ↦
            rw h
              (recover-IsJustified task world senior last history (safe_before world attempt e s))
        | inr h ↦ rw h tt
      ]
  attempts-IsJustified task world senior (suc left) attempt last history e s = (
    (omega arith, s),
    close_attempt-IsJustified world last attempt _ _ λ o q h.
        attempts-IsJustified task world senior left (suc attempt) o _ (omega arith) (
          inr (
            subst (λ n. EndedSafely (world n)) (omega arith)
              (retryable-EndedSafely task task attempt (recovery_of attempt) history (world attempt)
                o q h))),
  )

  -- Every attempt of a conductor worker has a number of at most three, and each but the first
  -- follows an attempt whose subagent returned, changed no file, and reported `failed` or
  -- `needs-review`.
  pub execute_conductor_worker-IsJustified :
      (task : Task) (world : ℕ → Spawn) (senior : Option Replan)
      → All
          (IsJustified world)
          (execute_conductor_worker is_stall is_blocked describe task world senior).0
  unfolding execute_conductor_worker
  execute_conductor_worker-IsJustified task world senior =
      attempts-IsJustified task world senior max_attempts 1 _ [] refl (inl refl)
