-- ===== src/Gateway/Schedule/Complete.antt =====
-- The rounds of `executeScheduledToolCalls` in packages/core/src/runtime/toolLoopShared.ts where
-- nothing interrupts them.
use kross.Base.{
  ℕ, zero, suc, ◌≤◌, ◌<◌, ◌≡◌, refl, List, [], ◌∷◌, map, arith, length, length-append, ap, max,
  String, false,
}
use mathlib.Core.List.{map-append}
use kross.Gateway.Schedule.{
  ToolCall, ToolMessage, Candidate, throws, Taken, taken, failed, take_parallel, or_first, content,
  answers, answer_batch, run_batch, Schedule, rounds, execute_scheduled_tool_calls,
}
use kross.Gateway.Schedule.Order.{Takes, or_first-Takes, take_parallel-Splits}

abbrev pub reply_to : (ToolCall → String) → ToolCall → ToolMessage
reply_to text c = record { tool_call_id = c.id; name = c.name; content = text c }

answer_batch_calm :
    (text : ToolCall → String) (batch : List ToolCall)
    → answer_batch (λ c. content (text c)) batch ≡ answers (map (reply_to text) batch)
unfolding answer_batch
answer_batch_calm text [] = refl
answer_batch_calm text (c ∷ batch) = ground (arith, answer_batch_calm text batch)

abbrev pub NoThrow : Candidate → Type 0
NoThrow (throws e) = ⊥
NoThrow _ = Unit

abbrev IsTaken : Taken → Type 0
IsTaken (failed e) = ⊥
IsTaken (taken batch rest) = Unit

module _ (judge : ToolCall → Candidate) (calm : (c : ToolCall) → NoThrow (judge c)) where
  take_parallel-IsTaken :
      (room : ℕ) (queue : List ToolCall) → IsTaken (take_parallel judge room queue)
  unfolding take_parallel
  take_parallel-IsTaken zero queue = tt
  take_parallel-IsTaken (suc room) [] = tt
  take_parallel-IsTaken (suc room) (c ∷ queue) =
      ground (arith, take_parallel-IsTaken room queue, calm c)

  or_first-IsTaken : (t : Taken) → IsTaken t → IsTaken (or_first t)
  unfolding or_first
  or_first-IsTaken (failed e) h = h
  or_first-IsTaken (taken [] []) h = tt
  or_first-IsTaken (taken [] (c ∷ rest)) h = tt
  or_first-IsTaken (taken (c ∷ batch) rest) h = tt

  module _ (text : ToolCall → String) (room : ℕ) where
    abbrev Answered : List ToolCall → Schedule → Type 0
    Answered queue s = s.result ≡ answers (map (reply_to text) queue)

    run_batch-Answered :
        (queue : List ToolCall) (t : Taken) (next : List ToolCall → Schedule)
        → Takes judge room queue t
        → IsTaken t
        → ((rest : List ToolCall) → length rest < length queue → Answered rest (next rest))
        → Answered queue (run_batch (λ c. content (text c)) t next)
    run_batch-Answered queue (failed e) next t h k = absurd h
    run_batch-Answered queue (taken batch rest) next t h k =
        rw
          (answer_batch_calm text batch, k rest shorter, t.0, map-append (reply_to text) batch rest)
      where
        shorter : length rest < length queue
        shorter = omega (arith, ap length t.0, length-append batch rest, t.2)

    rounds-Answered :
        (fuel n : ℕ) (queue : List ToolCall)
        → length queue ≤ fuel
        → Answered queue (rounds judge (λ c. content (text c)) room (λ i. false) fuel n queue)
    unfolding rounds
    rounds-Answered zero n [] h = refl
    rounds-Answered (suc fuel) n [] h = refl
    rounds-Answered zero n (c ∷ queue) h = absurd (omega arith)
    rounds-Answered (suc fuel) n (c ∷ queue) h =
        run_batch-Answered (c ∷ queue) (or_first (take_parallel judge room (c ∷ queue))) _
          (or_first-Takes judge room c queue _ (take_parallel-Splits judge room (c ∷ queue)))
          (or_first-IsTaken _ (take_parallel-IsTaken room (c ∷ queue)))
          λ rest lt. rounds-Answered fuel (suc n) rest (omega arith)

  -- If no inspection and no call throws and the signal stays quiet, the loop ends on the fuel
  -- given, and it answers each call once, in order, with the content that the call returned.
  pub execute_scheduled_tool_calls_complete :
      (text : ToolCall → String) (max_parallel : ℕ) (calls : List ToolCall)
      → (execute_scheduled_tool_calls judge
          (λ c. content (text c))
          max_parallel
          (λ i. false)
          calls).result
        ≡ answers (map (reply_to text) calls)
  unfolding execute_scheduled_tool_calls
  execute_scheduled_tool_calls_complete text max_parallel calls =
      rounds-Answered text (max 1 max_parallel) (length calls) 0 calls (omega arith)
