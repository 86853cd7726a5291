-- ===== src/Tests/Contexts.antt =====
-- Runs of the governance and of an interruption on a thread of one open turn, in which one of two
-- calls has its result.
use kross.Base.{
  All, zero, suc, length, ℕ, ◌<◌, String, ◌≡◌, refl, true, false, none, some, [], ◌∷◌, arith,
}
use kross.Base.Json.{str}
use kross.Conductor.Plan.{has}
use kross.Session.ContextPolicy.{ContextPolicy}
use kross.Gateway.Schedule.{ToolCall}
use kross.Context.Edits.{build_messages}
use kross.Context.State.{
  is_conversation_thread_state, export_state, restore_state, is_entry_role_compatible,
}
use kross.Context.State.Restored.{restore_state-export_state}
use kross.Context.Thread.{
  ThreadEntryKind, ThreadEntry, ConversationThread, plain, new_entry, interrupt_turn, user_input,
  reply, tool_result, opened,
}
use kross.Context.Tokens.{
  Text, LlmMessage, content_of, estimate_text_tokens, user, assistant, chat, tool,
}
use kross.Context.Aging.{Texts, truncate_head_tail}
use kross.Context.Stages.{Surroundings}
use kross.Context.Governor.{govern}
use kross.Context.Pairing.{Paired}
use kross.Context.Pairing.Govern.{EndsPaired, govern-EndsPaired}
use kross.Context.Pairing.Interrupted.{Closes, interrupt_turn-Closes}
use kross.Context.Pairing.Oversized.{IsIdeograph, truncate_head_tail-ideographs}

-- The text of `n` ideographs.
abbrev pub ideographs : ℕ → Text
ideographs zero = []
ideographs (suc n) = 20013 ∷ ideographs n

abbrev pub call : String → ToolCall
call id = record { id = id; name = "Read"; input = str "a.txt" }

abbrev pub counting : LlmMessage → ℕ
counting m = length (content_of m)

abbrev entry : ℕ → ThreadEntryKind → LlmMessage → ThreadEntry
entry id kind message = new_entry counting id 1 kind message none none none

abbrev asked : ConversationThread
asked = record {
  entries =
      entry 1 user_input (plain user (104 ∷ 105 ∷ []))
      ∷ entry 2 reply (chat assistant [] (some (call "c1" ∷ call "c2" ∷ [])))
      ∷ entry 3 tool_result (tool "c1" "Read" (ideographs 40))
      ∷ [];
  turns = (1, opened) ∷ [];
  open_turn_id = some 1;
  current_iteration = 1;
  entry_counter = 3;
  turn_counter = 1;
}

has_c1 : has "c1" ("c1" ∷ "c2" ∷ []) ≡ true
unfolding has
has_c1 = refl

asked-Paired : Paired none asked.entries
asked-Paired = (tt, (tt, ((refl, has_c1), tt)))

abbrev pub texts : Texts
texts = record {
  elided = λ e. 101 ∷ [];
  truncation_notice = λ e. 116 ∷ [];
  thread_notice = λ k. 110 ∷ [];
  compaction = λ s. s;
  summary_body = λ s. s;
}

abbrev pub policy : ContextPolicy
policy = record {
  context_window = 100;
  output_reserve = 10;
  input_budget = 90;
  compact_threshold = 72;
  tool_result_quota = 8;
  preserve_full_turns = 1;
  preserve_recent_tokens = 20;
  preserve_tool_iterations = 1;
  max_tool_result_tokens = 20;
}

abbrev pub quiet : Surroundings
quiet = record {
  summarize = λ s. some (115 ∷ []);
  aborted_at_start = false;
  aborted_after_summary = false;
  aborted_after_stage = false;
}

govern-EndsPaired_example :
    EndsPaired counting texts policy
      (some 1)
      (λ k. omega arith)
      (govern counting texts policy 10 quiet asked)
govern-EndsPaired_example =
    govern-EndsPaired counting texts policy (some 1) (λ k. omega arith) 10 quiet asked
      (asked-Paired, refl)

interrupt_turn-Closes_example : Closes 1 (interrupt_turn counting (115 ∷ []) asked)
interrupt_turn-Closes_example = interrupt_turn-Closes counting (115 ∷ []) 1 asked refl asked-Paired

ideographs-IsIdeograph : (n : ℕ) → All IsIdeograph (ideographs n)
ideographs-IsIdeograph zero = tt
ideographs-IsIdeograph (suc n) = (omega arith, ideographs-IsIdeograph n)

truncate_head_tail-ideographs_example :
    16 < estimate_text_tokens (truncate_head_tail (ideographs 100) 16)
truncate_head_tail-ideographs_example =
    truncate_head_tail-ideographs 16 (ideographs 100) (ideographs-IsIdeograph 100) (omega arith)

asked-accepted : is_conversation_thread_state (export_state asked) ≡ true
unfolding is_conversation_thread_state export_state is_entry_role_compatible
asked-accepted = refl

restore_state-export_state_example :
    ((restore_state counting true [] (export_state asked) asked).0 ≡ true)
    × (build_messages (restore_state counting true [] (export_state asked) asked).1
        ≡ build_messages asked)
    × ((restore_state counting true [] (export_state asked) asked).1.current_iteration ≡ 1)
restore_state-export_state_example =
    restore_state-export_state counting [] asked asked asked-accepted
