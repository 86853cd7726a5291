-- ===== src/Context/Pairing/Interrupted.antt =====
-- `interruptTurn` of packages/core/src/context/conversationThread.ts as a whole.
use kross.Base.{
  All, All-append, ℕ, ◌+◌, String, ◌≡◌, refl, sym, ◌∙◌, true, Option, none, some, List, [], ◌∷◌,
  ◌++◌, map, subst,
}
use kross.Conductor.Plan.{has}
use kross.Gateway.Schedule.{ToolCall}
use kross.Context.Thread.{
  ThreadEntry, ConversationThread, plain, is_turn, set_status, result_ids, new_entry, append_entry,
  abort_turn, match_calls, remove_unmatched_tool_calls, interrupt_turn, notice, aborted,
}
use kross.Context.Tokens.{Text, LlmMessage, user}
use kross.Context.Pairing.{Paired, append-Paired}
use kross.Context.Pairing.Interrupt.{calls_of, match_calls-Paired, result_ids-Listed}
use kross.Context.Pairing.Dangling.{
  AllAnswered, NoneDangling, result_ids-append, match_calls-result_ids, match_calls-NoneDangling,
}

NoneDangling-append :
    (turn : ℕ) (ids : List String) (es : List ThreadEntry) (n : ThreadEntry)
    → calls_of n.message ≡ []
    → NoneDangling turn ids es
    → NoneDangling turn ids (es ++ n ∷ [])
NoneDangling-append turn ids es n e h =
    All-append (λ (x : ThreadEntry). is_turn turn x ≡ true → AllAnswered ids x.message) es (n ∷ [])
      h (λ b. subst (λ cs. All (λ (c : ToolCall). has c.id ids ≡ true) cs) (sym e) tt, tt)

-- The turn is closed, the results are paired, and no call of the turn is left without a result.
abbrev pub Closes : ℕ → Option ConversationThread → Type 0
Closes turn o =
    (u : ConversationThread) × (o ≡ some u)
    × (u.open_turn_id ≡ none)
    × Paired none u.entries
    × NoneDangling turn (result_ids turn u.entries) u.entries

-- If a turn of a thread is open and each tool result stands behind the assistant message of its
-- turn that called it, then an interruption succeeds, no turn is open afterwards, each tool result
-- still stands so, and each tool call in an assistant message of the turn has a result in the turn.
pub interrupt_turn-Closes :
    (estimate : LlmMessage → ℕ) (reason : Text) (turn : ℕ) (t : ConversationThread)
    → t.open_turn_id ≡ some turn
    → Paired none t.entries
    → Closes turn (interrupt_turn estimate reason t)
unfolding interrupt_turn abort_turn remove_unmatched_tool_calls append_entry
interrupt_turn-Closes estimate reason turn t o h =
    (u, rw (interrupt_turn, o, abort_turn, o) refl, refl, paired, dangling)
  where
    ids : List String
    ids = result_ids turn t.entries

    es : List ThreadEntry
    es = map (match_calls estimate turn ids) t.entries

    n : ThreadEntry
    n = new_entry estimate (t.entry_counter + 1) turn notice (plain user reason) none none none

    u : ConversationThread
    u = record t {
      entries = es ++ n ∷ [];
      turns = set_status turn aborted t.turns;
      open_turn_id = none;
      entry_counter = t.entry_counter + 1;
    }

    paired : Paired none (es ++ n ∷ [])
    paired =
        append-Paired none es (n ∷ [])
          (match_calls-Paired estimate turn ids none none t.entries
            (result_ids-Listed turn ids t.entries (λ x k. k)) (λ i id l k. k) h)
          (tt, tt)

    dangling : NoneDangling turn (result_ids turn (es ++ n ∷ [])) (es ++ n ∷ [])
    dangling =
        subst (λ xs. NoneDangling turn xs (es ++ n ∷ []))
          (sym
            (result_ids-append turn es n refl ∙ match_calls-result_ids estimate turn ids t.entries))
          (NoneDangling-append turn ids es n refl
            (match_calls-NoneDangling estimate turn ids t.entries))
