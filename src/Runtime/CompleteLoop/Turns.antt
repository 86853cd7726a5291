-- ===== src/Runtime/CompleteLoop/Turns.antt =====
-- The turn and the thread that `runCompleteToolLoop` of
-- packages/core/src/runtime/completeToolLoop.ts leaves.
use kross.Base.{
  All, text_eq_iff, ℕ, ◌+◌, ◌≤◌, String, ◌≡◌, refl, sym, ap, subst, ◌∙◌, Bool, true, false, Option,
  none, some, List, [], ◌∷◌, ◌++◌, map, arith,
}
use kross.Runtime.CompleteLoop.{
  Response, World, Run, max_parallel_read_tools, unless_aborted, commit_with, finish, answer,
  append_results, Next, after_observation, on_answers, run_calls, respond, behind_calls, returned,
  threw, diverged,
}
use kross.Conductor.Plan.{has}
use kross.Session.ContextPolicy.{ContextPolicy}
use kross.Session.Stall.{
  StallState, Observation, Detector, observe, progress, repeated, recover, stalled,
}
use kross.Context.Tokens.{Text, LlmMessage, user, assistant, chat, tool}
use kross.Context.Thread.{
  ThreadEntryKind, ThreadEntry, ConversationThread, ToolResultInput, plain, or_else, some_calls,
  new_entry, append_entry, append_plain, commit_turn, append_assistant, append_tool_result, reply,
  tool_result,
}
use kross.Context.Aging.{Texts}
use kross.Gateway.Schedule.{ToolCall, ToolMessage, Answers, answers, rejected}
use kross.Gateway.Schedule.Order.{AnswersTo, execute_scheduled_tool_calls-InOrder}
use kross.Context.Pairing.{Caller, call_ids, ids_of_calls, advance, Paired, after, append-Paired}

has-call_ids :
    (x : String) (calls : List ToolCall) → has x (call_ids calls) ≡ has x (map (λ c. c.id) calls)
has-call_ids x [] = refl
has-call_ids x (c ∷ calls) = ap (λ xs. has x (c.id ∷ xs)) (call_ids-map calls)
  where
    call_ids-map : (cs : List ToolCall) → call_ids cs ≡ map (λ c. c.id) cs
    call_ids-map [] = refl
    call_ids-map (c ∷ cs) = ap (◌∷◌ c.id) (call_ids-map cs)

after-append :
    (p : Caller) (es : List ThreadEntry) (e : ThreadEntry)
    → after p (es ++ e ∷ []) ≡ advance (after p es) e
after-append p [] e = refl
after-append p (x ∷ es) e = after-append (advance p x) es e

-- The messages answer calls of the ids.
All-answering :
    (ids : List String) (ms : List ToolMessage)
    → ((x : String)
        → has x (map (λ (m : ToolMessage). m.tool_call_id) ms) ≡ true
        → has x ids ≡ true)
    → All (λ (m : ToolMessage). has m.tool_call_id ids ≡ true) ms
unfolding has
All-answering ids [] h = tt
All-answering ids (m ∷ ms) h = (
  h m.tool_call_id (ground (arith, text_eq_iff m.tool_call_id m.tool_call_id)),
  All-answering ids ms λ x k. h x (ground arith),
)

module _ (estimate : LlmMessage → ℕ) (texts : Texts) (policy : ContextPolicy) (w : World)
    (small : (k : ThreadEntryKind) → estimate (plain user (texts.thread_notice k)) ≤ 256)
    (turn : ℕ) where
  -- The results are paired, and the turn is open.
  abbrev pub During : ConversationThread → Type 0
  During t = Paired none t.entries × (t.open_turn_id ≡ some turn)

  -- A loop that returns has closed its turn, and one that throws leaves it open.
  abbrev pub EndsWell : Run → Type 0
  EndsWell (returned summary t) = Paired none t.entries × (t.open_turn_id ≡ none)
  EndsWell (threw t) = Paired none t.entries × (t.open_turn_id ≡ some turn)
  EndsWell diverged = ⊥

  commit_with-EndsWell :
      (s : Text) (t : ConversationThread)
      → During t
      → EndsWell (commit_with estimate texts policy w s t)
  unfolding commit_with commit_turn
  commit_with-EndsWell s t h = rw (commit_with, commit_turn, h.1) (h.0, refl)

  append_assistant-During :
      (c : Text) (calls : List ToolCall) (t : ConversationThread)
      → During t
      → (u : ConversationThread) × (append_assistant estimate c calls t ≡ some u)
        × During u
        × (after none u.entries ≡ some (turn, ids_of_calls (some_calls calls)))
  unfolding append_assistant append_entry
  append_assistant-During c calls t h = (
    append_plain estimate turn reply (chat assistant c (some_calls calls)) t,
    ap
        (λ (o : Option ℕ). elim o as (λ _. Option ConversationThread) [
          | none ↦ none
          | some n ↦ some (append_plain estimate n reply (chat assistant c (some_calls calls)) t)
        ])
        h.1,
    (append-Paired none t.entries _ h.0 (tt, tt), h.1),
    after-append none t.entries _,
  )

  pub finish-EndsWell :
      (s : Text) (t : ConversationThread) → During t → EndsWell (finish estimate texts policy w s t)
  unfolding finish
  finish-EndsWell s t h =
      let (u, e, k, l) = append_assistant-During s [] t h in
      rw (finish, e) (commit_with-EndsWell s u k)

  answer-EndsWell :
      (s : Text) (t : ConversationThread) → During t → EndsWell (answer estimate texts policy w s t)
  unfolding answer
  answer-EndsWell [] t h = commit_with-EndsWell w.empty_summary t h
  answer-EndsWell (c ∷ s) t h = finish-EndsWell (c ∷ s) t h

  tool_result_at :
      (r : ToolResultInput) (t : ConversationThread)
      → t.open_turn_id ≡ some turn
      → append_tool_result estimate r t
        ≡ some (
            append_entry estimate turn tool_result
              (tool r.tool_call_id r.name r.content)
              (some (or_else r.iteration t.current_iteration))
              r.summary
              (some (estimate (tool r.tool_call_id r.name r.content)))
              t)
  unfolding append_tool_result
  tool_result_at r t h =
      ap
        (λ (o : Option ℕ). elim o as (λ _. Option ConversationThread) [
          | none ↦ none
          | some n ↦ some (
              append_entry estimate n tool_result (tool r.tool_call_id r.name r.content)
                (some (or_else r.iteration t.current_iteration)) r.summary
                (some (estimate (tool r.tool_call_id r.name r.content))) t)
        ])
        h

  append_results-During :
      (n : ℕ) (ids : List String) (ms : List ToolMessage) (t : ConversationThread)
      → All (λ (m : ToolMessage). has m.tool_call_id ids ≡ true) ms
      → During t
      → after none t.entries ≡ some (turn, ids)
      → (u : ConversationThread) × (append_results estimate texts policy w n ms t ≡ some u)
        × During u
  unfolding append_results append_tool_result append_entry
  append_results-During n ids [] t a h k = (t, refl, h)
  append_results-During n ids (m ∷ ms) t a h k =
      let c = w.units m.content in
      let e =
        new_entry estimate (t.entry_counter + 1) turn tool_result (tool m.tool_call_id m.name c)
          (some n) none (some (estimate (tool m.tool_call_id m.name c))) in
      let t' = record t { entries = t.entries ++ e ∷ []; entry_counter = t.entry_counter + 1 } in
      let paired =
        append-Paired none t.entries (e ∷ []) h.0
          (subst (λ q. Paired q (e ∷ [])) (sym k) ((refl, a.0), tt)) in
      let (u, q, r) =
        append_results-During n ids ms t' a.1 (paired, h.1) (after-append none t.entries e ∙ k) in
      (
        u,
        rw
            (
              append_results,
              tool_result_at
                  (record {
                    tool_call_id = m.tool_call_id;
                    name = m.name;
                    content = c;
                    summary = none;
                    iteration = some n;
                  })
                  t h.1,
            )
            q,
        r,
      )

  -- What follows an iteration ends well.
  abbrev pub NextEndsWell : Next estimate texts policy w → Type 0
  NextEndsWell next =
      (s : Text) (b : Bool) (d : Detector) (u : ConversationThread)
      → During u
      → EndsWell (next s b d u)

  after_observation-EndsWell :
      (s : Text) (o : Observation × Detector) (t : ConversationThread)
      (next : Next estimate texts policy w)
      → During t
      → NextEndsWell next
      → EndsWell (after_observation estimate texts policy w s o t next)
  unfolding after_observation
  after_observation-EndsWell s (o, d) t next h k = go o.state
    where
      go :
          (x : StallState)
          → EndsWell (elim x [
            | stalled ↦ finish estimate texts policy w w.stalled_summary t
            | recover ↦ next s true d t
            | _ ↦ next s false d t
          ])
      go stalled = finish-EndsWell w.stalled_summary t h
      go recover = k s true d t h
      go progress = k s false d t h
      go repeated = k s false d t h

  pub unless_aborted-EndsWell :
      (b : Bool) (t : ConversationThread) (r : Run)
      → During t
      → EndsWell r
      → EndsWell (unless_aborted b t r)
  unless_aborted-EndsWell true t r h k = h
  unless_aborted-EndsWell false t r h k = k

  on_answers-EndsWell :
      (n : ℕ) (calls : List ToolCall) (ids : List String) (s : Text) (d : Detector) (a : Answers)
      (t : ConversationThread) (next : Next estimate texts policy w)
      → ((x : String) → has x (map (λ c. c.id) calls) ≡ true → has x ids ≡ true)
      → AnswersTo calls a
      → During t
      → after none t.entries ≡ some (turn, ids)
      → NextEndsWell next
      → EndsWell (on_answers estimate texts policy w n calls s d a t next)
  on_answers-EndsWell n calls ids s d (rejected e) t next f g h k l = h
  on_answers-EndsWell n calls ids s d (answers ms) t next f g h k l =
      let answering = All-answering ids ms λ x q. f x (subst (λ xs. has x xs ≡ true) g q) in
      let (u, e, v) = append_results-During n ids ms t answering h k in
      unless_aborted-EndsWell (w.aborted_at n behind_calls) t _ h
        (rw (e) (after_observation-EndsWell s (observe (w.fingerprint calls ms) d) u next v l))

  run_calls-EndsWell :
      (n : ℕ) (c : ToolCall) (calls : List ToolCall) (raw s : Text) (d : Detector)
      (t : ConversationThread) (next : Next estimate texts policy w)
      → During t
      → NextEndsWell next
      → EndsWell (run_calls estimate texts policy w n (c ∷ calls) raw s d t next)
  unfolding run_calls
  run_calls-EndsWell n c calls raw s d t next h l =
      let (u, e, v, k) = append_assistant-During raw (c ∷ calls) t h in
      rw (run_calls, e)
        (on_answers-EndsWell n (c ∷ calls) (call_ids (c ∷ calls)) s d _ u next
          (λ x q. has-call_ids x (c ∷ calls) ∙ q)
          (execute_scheduled_tool_calls-InOrder (w.judge n) (w.perform n) max_parallel_read_tools
            (w.scheduler_aborted n) (c ∷ calls)).2
          v k l)

  pub respond-EndsWell :
      (n : ℕ) (r : Response) (d : Detector) (t : ConversationThread)
      (next : Next estimate texts policy w)
      → During t
      → NextEndsWell next
      → EndsWell (respond estimate texts policy w n r d t next)
  unfolding respond
  respond-EndsWell n r d t next h l = go r.tool_calls
    where
      go :
          (calls : List ToolCall)
          → EndsWell (elim calls [
            | [] ↦ answer estimate texts policy w (w.trim r.text) t
            | c ∷ calls ↦
                run_calls estimate texts policy w n (c ∷ calls) r.text (w.trim r.text) d t next
          ])
      go [] = answer-EndsWell (w.trim r.text) t h
      go (c ∷ calls) = run_calls-EndsWell n c calls r.text (w.trim r.text) d t next h l
