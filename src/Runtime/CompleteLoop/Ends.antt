-- ===== src/Runtime/CompleteLoop/Ends.antt =====
-- The end of `runCompleteToolLoop` of packages/core/src/runtime/completeToolLoop.ts.
use kross.Base.{
  ℕ, zero, suc, ◌+◌, ◌≤◌, ◌≡◌, refl, sym, ap, subst, Bool, false, Option, none, some, List, [],
}
use kross.Runtime.CompleteLoop.{
  Response, World, Run, on_governed, on_response, Next, request, on_soft, land, iterate,
  run_complete_tool_loop, at_head, behind_request, behind_response, threw,
}
use kross.Session.ContextPolicy.{ContextPolicy}
use kross.Session.Stall.{Detector, new_detector}
use kross.Context.Tokens.{Text, LlmMessage, user}
use kross.Context.Thread.{ThreadEntryKind, ConversationThread, plain, append_entry, begin_turn}
use kross.Context.Edits.{build_messages}
use kross.Context.Aging.{Texts}
use kross.Context.Stages.{ContextMaintenanceResult}
use kross.Context.Governor.{Governed, govern}
use kross.Context.Pairing.{Paired, append-Paired}
use kross.Context.Pairing.Governed.{Keeps}
use kross.Context.Pairing.Govern.{EndsPaired, govern-EndsPaired}
use kross.Runtime.CompleteLoop.Turns.{
  During, EndsWell, finish-EndsWell, NextEndsWell, unless_aborted-EndsWell, respond-EndsWell,
}

module _ (estimate : LlmMessage → ℕ) (texts : Texts) (policy : ContextPolicy) (w : World)
    (small : (k : ThreadEntryKind) → estimate (plain user (texts.thread_notice k)) ≤ 256) where
  module _ (turn : ℕ) where
    on_governed-EndsWell :
        (o : Option Governed) (next : ConversationThread → Run)
        → EndsPaired estimate texts policy (some turn) small o
        → ((u : ConversationThread)
            → During estimate texts policy w small turn u
            → EndsWell estimate texts policy w small turn (next u))
        → EndsWell estimate texts policy w small turn (on_governed o next)
    on_governed-EndsWell none next (g, e, h) k = cc
    on_governed-EndsWell (some v) next (g, e, h) k =
        go v.maintenance (subst (Keeps estimate texts policy (some turn)) (sym (ap thread_of e)) h)
      where
        thread_of : Option Governed → ConversationThread
        thread_of none = v.thread
        thread_of (some g) = g.thread

        go :
            (m : Option (List ContextMaintenanceResult))
            → Keeps estimate texts policy (some turn) v.thread
            → EndsWell estimate texts policy w small turn
                (elim m [ none ↦ threw v.thread | some results ↦ next v.thread ])
        go none h = h
        go (some results) h = k v.thread h

    on_response-EndsWell :
        (o : Option Response) (t : ConversationThread) (next : Response → Run)
        → During estimate texts policy w small turn t
        → ((r : Response) → EndsWell estimate texts policy w small turn (next r))
        → EndsWell estimate texts policy w small turn (on_response o t next)
    on_response-EndsWell none t next h k = h
    on_response-EndsWell (some r) t next h k = k r

    request-EndsWell :
        (n : ℕ) (b : Bool) (d : Detector) (t : ConversationThread)
        (next : Next estimate texts policy w)
        → During estimate texts policy w small turn t
        → NextEndsWell estimate texts policy w small turn next
        → EndsWell estimate texts policy w small turn (request estimate texts policy w n b d t next)
    unfolding request
    request-EndsWell n b d t next h l =
        on_governed-EndsWell (govern estimate texts policy (w.budget n b) (w.around n) t) _
          (govern-EndsPaired estimate texts policy (some turn) small (w.budget n b) (w.around n) t
            h)
          λ u v.
            unless_aborted-EndsWell estimate texts policy w small turn
              (w.aborted_at n behind_request) u _ v
              (on_response-EndsWell (w.complete n b (build_messages u)) u _ v λ r.
                unless_aborted-EndsWell estimate texts policy w small turn
                  (w.aborted_at n behind_response) u _ v
                  (respond-EndsWell estimate texts policy w small turn n r d u next v l))

    on_soft-EndsWell :
        (o : Option Text) (last : Text) (t : ConversationThread)
        → During estimate texts policy w small turn t
        → EndsWell estimate texts policy w small turn (on_soft estimate texts policy w o last t)
    on_soft-EndsWell none last t h = h
    on_soft-EndsWell (some s) last t h = finish-EndsWell estimate texts policy w small turn _ t h

    land-EndsWell :
        (n : ℕ) (last : Text) (t : ConversationThread)
        → During estimate texts policy w small turn t
        → EndsWell estimate texts policy w small turn (land estimate texts policy w n last t)
    unfolding land
    land-EndsWell n last t h =
        unless_aborted-EndsWell estimate texts policy w small turn (w.aborted_at n at_head) t _ h (
          on_governed-EndsWell (govern estimate texts policy (w.budget n false) (w.around n) t) _
            (govern-EndsPaired estimate texts policy (some turn) small (w.budget n false)
              (w.around n) t h)
            λ u v. on_soft-EndsWell (w.soft_land (build_messages u)) last u v)

    iterate-EndsWell :
        (left n : ℕ) (last : Text) (b : Bool) (d : Detector) (t : ConversationThread)
        → During estimate texts policy w small turn t
        → EndsWell estimate texts policy w small turn
            (iterate estimate texts policy w left n last b d t)
    unfolding iterate
    iterate-EndsWell zero n last b d t h = land-EndsWell n last t h
    iterate-EndsWell (suc left) n last b d t h =
        unless_aborted-EndsWell estimate texts policy w small turn (w.aborted_at n at_head) t _ h (
          request-EndsWell n b d (record t { current_iteration = n })
            (iterate estimate texts policy w left (suc n)) h
            λ s c e u v. iterate-EndsWell left (suc n) s c e u v)

  -- If a thread notice counts at most 256 tokens, no turn of the thread is open, and each tool
  -- result stands behind the assistant message of its turn that called it with only results
  -- between, then the tool loop of a subagent ends, whatever the model, the tools, the governance,
  -- the stall detector and the abort signal do; in the thread that it leaves each tool result
  -- stands so; and its turn is closed if the loop returns, and still open if it throws.
  pub run_complete_tool_loop-EndsWell :
      (prompt : Text) (max_iterations : ℕ) (t : ConversationThread)
      → t.open_turn_id ≡ none
      → Paired none t.entries
      → EndsWell estimate texts policy w small
          (t.turn_counter + 1)
          (run_complete_tool_loop estimate texts policy w prompt max_iterations t)
  unfolding run_complete_tool_loop begin_turn append_entry
  run_complete_tool_loop-EndsWell prompt max_iterations t o h =
      rw (run_complete_tool_loop, begin_turn, o)
        (iterate-EndsWell (t.turn_counter + 1) max_iterations 1 [] false (new_detector none) _
          (append-Paired none t.entries _ h (tt, tt), refl))
