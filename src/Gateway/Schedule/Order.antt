-- ===== src/Gateway/Schedule/Order.antt =====
-- The batches of `executeScheduledToolCalls` in packages/core/src/runtime/toolLoopShared.ts and the
-- order of the calls.
use kross.Base.{
  sym, ◌∙◌, max, Bool-cases, Bool, ℕ, zero, suc, ◌≤◌, ◌≡◌, refl, ◌⊎◌, inl, inr, List, [], ◌∷◌, ◌++◌,
  map, arith, length, All, ap,
}
use mathlib.Core.List.{append_assoc, append-nil, map-append}
use kross.Gateway.Schedule.{
  join_answers, run_batch, prepend, ToolCall, ToolMessage, Candidate, joins, Taken, taken, failed,
  take_parallel, or_first, Reply, Answers, answers, rejected, answer_batch, Schedule, rounds,
  execute_scheduled_tool_calls,
}

abbrev Joins : (ToolCall → Candidate) → ToolCall → Type 0
Joins judge c = judge c ≡ joins

-- A batch is one call alone, or calls that may all run together, no more than there is room for.
abbrev IsBatch : (ToolCall → Candidate) → ℕ → List ToolCall → Type 0
IsBatch judge room batch =
    (length batch ≡ 1) ⊎ ((length batch ≤ room) × All (λ c. judge c ≡ joins) batch)

abbrev Splits : (ToolCall → Candidate) → ℕ → List ToolCall → Taken → Type 0
Splits judge room queue (failed e) = Unit
Splits judge room queue (taken batch rest) =
    (queue ≡ batch ++ rest) × (length batch ≤ room) × All (λ c. judge c ≡ joins) batch

pub take_parallel-Splits :
    (judge : ToolCall → Candidate) (room : ℕ) (queue : List ToolCall)
    → Splits judge room queue (take_parallel judge room queue)
unfolding take_parallel
take_parallel-Splits judge zero queue = (refl, omega arith, tt)
take_parallel-Splits judge (suc room) [] = (refl, omega arith, tt)
take_parallel-Splits judge (suc room) (c ∷ queue) =
    ground (arith, take_parallel-Splits judge room queue)

-- Every call of the batch comes first in the queue, and the batch is not empty.
abbrev pub Takes : (ToolCall → Candidate) → ℕ → List ToolCall → Taken → Type 0
Takes judge room queue (failed e) = Unit
Takes judge room queue (taken batch rest) =
    (queue ≡ batch ++ rest) × IsBatch judge room batch × (1 ≤ length batch)

pub or_first-Takes :
    (judge : ToolCall → Candidate) (room : ℕ) (c : ToolCall) (queue : List ToolCall) (t : Taken)
    → Splits judge room (c ∷ queue) t
    → Takes judge room (c ∷ queue) (or_first t)
unfolding or_first
or_first-Takes judge room c queue (failed e) s = tt
or_first-Takes judge room c queue (taken [] []) s = absurd (ground arith)
or_first-Takes judge room c queue (taken [] (d ∷ rest)) s = (s.0, inl refl, omega arith)
or_first-Takes judge room c queue (taken (d ∷ batch) rest) s = (s.0, inr (s.1, s.2), omega arith)

abbrev flat : List (List ToolCall) → List ToolCall
flat [] = []
flat (xs ∷ xss) = xs ++ flat xss

abbrev pub AnswersTo : List ToolCall → Answers → Type 0
AnswersTo batch (rejected e) = Unit
AnswersTo batch (answers messages) = map (λ m. m.tool_call_id) messages ≡ map (λ c. c.id) batch

answer_batch-AnswersTo :
    (perform : ToolCall → Reply) (batch : List ToolCall)
    → AnswersTo batch (answer_batch perform batch)
unfolding answer_batch
answer_batch-AnswersTo perform [] = refl
answer_batch-AnswersTo perform (c ∷ batch) = ground (arith, answer_batch-AnswersTo perform batch)

-- What a schedule of `calls` keeps: its batches are batches, they cover an initial part of the
-- calls in order, and where the loop ends well each call is answered once, in order.
abbrev pub InOrder : (ToolCall → Candidate) → ℕ → List ToolCall → Schedule → Type 0
InOrder judge room calls s =
    All (IsBatch judge room) s.batches
    × ((rest : List ToolCall) × (calls ≡ flat s.batches ++ rest))
    × AnswersTo calls s.result

join_answers-AnswersTo :
    (batch rest : List ToolCall) (messages : List ToolMessage) (r : Answers)
    → AnswersTo batch (answers messages)
    → AnswersTo rest r
    → AnswersTo (batch ++ rest) (join_answers messages r)
join_answers-AnswersTo batch rest messages (rejected e) h k = tt
join_answers-AnswersTo batch rest messages (answers more) h k =
    rw (map-append (λ m. m.tool_call_id) messages more, map-append (λ c. c.id) batch rest, h, k)

module _ (judge : ToolCall → Candidate) (perform : ToolCall → Reply) (room : ℕ)
    (aborted_at : ℕ → Bool) where
  prepend-InOrder :
      (batch rest : List ToolCall) (a : Answers) (s : Schedule)
      → IsBatch judge room batch
      → AnswersTo batch a
      → InOrder judge room rest s
      → InOrder judge room (batch ++ rest) (prepend batch a s)
  prepend-InOrder batch rest (rejected e) s b h k =
      ((b, tt), (rest, ap (λ l. l ++ rest) (sym (append-nil batch))), tt)
  prepend-InOrder batch rest (answers messages) s b h k = (
    (b, k.0),
    (k.1.0, ap (◌++◌ batch) k.1.1 ∙ sym (append_assoc batch (flat s.batches) k.1.0)),
    join_answers-AnswersTo batch rest messages s.result h k.2,
  )

  run_batch-InOrder :
      (queue : List ToolCall) (t : Taken) (next : List ToolCall → Schedule)
      → Takes judge room queue t
      → ((rest : List ToolCall) → InOrder judge room rest (next rest))
      → InOrder judge room queue (run_batch perform t next)
  run_batch-InOrder queue (failed e) next t k = (tt, (queue, refl), tt)
  run_batch-InOrder queue (taken batch rest) next t k =
      rw t.0 (
        prepend-InOrder batch rest _ (next rest) t.1 (answer_batch-AnswersTo perform batch)
          (k rest))

  rounds-InOrder :
      (fuel n : ℕ) (queue : List ToolCall)
      → InOrder judge room queue (rounds judge perform room aborted_at fuel n queue)
  unfolding rounds
  rounds-InOrder zero n [] = (tt, ([], refl), refl)
  rounds-InOrder (suc fuel) n [] = (tt, ([], refl), refl)
  rounds-InOrder zero n (c ∷ queue) = (tt, (c ∷ queue, refl), tt)
  rounds-InOrder (suc fuel) n (c ∷ queue) = elim (Bool-cases (aborted_at n)) [
    | inl h ↦ rw (h, rounds) (tt, (c ∷ queue, refl), tt)
    | inr h ↦
        rw (h, rounds)
          (run_batch-InOrder (c ∷ queue) (or_first (take_parallel judge room (c ∷ queue))) _
            (or_first-Takes judge room c queue _ (take_parallel-Splits judge room (c ∷ queue)))
            (rounds-InOrder fuel (suc n)))
  ]

-- Whatever is said of the candidates, comes of the calls and aborts the signal: each batch is one
-- call, or at most `max(1, maxParallelReads)` calls that may join; the batches are, in order, an
-- initial part of the calls; and where the loop ends well, the messages carry the ids of the calls,
-- each once, in order.
pub execute_scheduled_tool_calls-InOrder :
    (judge : ToolCall → Candidate) (perform : ToolCall → Reply) (max_parallel : ℕ)
    (aborted_at : ℕ → Bool) (calls : List ToolCall)
    → InOrder judge
        (max 1 max_parallel)
        calls
        (execute_scheduled_tool_calls judge perform max_parallel aborted_at calls)
unfolding execute_scheduled_tool_calls
execute_scheduled_tool_calls-InOrder judge perform max_parallel aborted_at calls =
    rounds-InOrder judge perform (max 1 max_parallel) aborted_at (length calls) 0 calls
