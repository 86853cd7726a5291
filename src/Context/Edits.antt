-- ===== src/Context/Edits.antt =====
-- The changes of entries that are there, in `ConversationThread` of
-- packages/core/src/context/conversationThread.ts: compactions, notices, elided and truncated
-- entries.
use kross.Base.{
  length, filter_by, if◌then◌else◌, ◌==◌, drop, ℕ, zero, suc, ◌+◌, min, Bool, true, false, not,
  ◌&&◌, Option, none, some, List, [], ◌∷◌, map, ℕ_discrete,
}
use kross.Base.Maps.{Map, get, set, delete}
use kross.Context.Thread.{
  ThreadEntryKind, TurnStatus, ThreadEntry, ConversationThread, plain, is_turn, or_else, has_turn,
  update_entry, new_entry, append_entry, append_plain, tool_result, compaction, notice, committed,
  aborted,
}
use kross.Context.Tokens.{Text, LlmMessage, user, assistant, chat, tool}

-- `getTurnIdsInOrder`.
abbrev order_turns : List ℕ → List ThreadEntry → List ℕ
order_turns seen [] = []
order_turns seen (e ∷ es) = elim (has_turn e.turn_id seen) [
  | true ↦ order_turns seen es
  | false ↦ e.turn_id ∷ order_turns (e.turn_id ∷ seen) es
]

unfoldable pub get_turn_ids_in_order : ConversationThread → List ℕ
get_turn_ids_in_order t = order_turns [] t.entries

unfoldable pub get_turn_status : ℕ → ConversationThread → Option TurnStatus
unfolding get ℕ_discrete
get_turn_status turn t = get ℕ_discrete turn t.turns

unfoldable get_entries_for_turn : ℕ → ConversationThread → List ThreadEntry
get_entries_for_turn turn t = filter_by (is_turn turn) t.entries

abbrev pub is_settled : Option TurnStatus → Bool
is_settled (some committed) = true
is_settled (some aborted) = true
is_settled _ = false

unfoldable get_committed_entries : ConversationThread → List ThreadEntry
unfolding get_turn_status
get_committed_entries t = filter_by (λ e. is_settled (get_turn_status e.turn_id t)) t.entries

abbrev delete_turns : List ℕ → Map ℕ TurnStatus → Map ℕ TurnStatus
delete_turns [] turns = turns
delete_turns (n ∷ ns) turns = delete_turns ns (delete ℕ_discrete n turns)

abbrev keep_open : List ℕ → Option ℕ → Option ℕ
keep_open ns none = none
keep_open ns (some n) = if has_turn n ns then none else some n

unfoldable remove_turn_entries : List ℕ → ConversationThread → ConversationThread
remove_turn_entries ns t = record t {
  entries = filter_by (λ e. not (has_turn e.turn_id ns)) t.entries;
  turns = delete_turns ns t.turns;
  open_turn_id = keep_open ns t.open_turn_id;
}

unfoldable pub take : ℕ → List ThreadEntry → List ThreadEntry
take zero es = []
take (suc n) [] = []
take (suc n) (e ∷ es) = e ∷ take n es

abbrev turns_of : List ThreadEntry → List ℕ
turns_of [] = []
turns_of (e ∷ es) = e.turn_id ∷ turns_of es

abbrev gone : List ℕ → List ℕ → List ℕ
gone remaining [] = []
gone remaining (n ∷ ns) = if has_turn n remaining then gone remaining ns else n ∷ gone remaining ns

abbrev set_missing : ℕ → Map ℕ TurnStatus → Map ℕ TurnStatus
set_missing turn turns = elim (get ℕ_discrete turn turns) [
  | none ↦ set ℕ_discrete turn committed turns
  | some s ↦ turns
]

-- The content of the changed message.
abbrev pub with_content : Text → LlmMessage → LlmMessage
with_content c (tool id name old) = tool id name c
with_content c (chat assistant old calls) = chat assistant c calls
with_content c (chat role old calls) = chat role c none

abbrev pub is_tool : LlmMessage → Bool
is_tool (tool id name c) = true
is_tool _ = false

abbrev pub is_tool_result : ThreadEntryKind → Bool
is_tool_result tool_result = true
is_tool_result _ = false

module _ (estimate : LlmMessage → ℕ) where
  -- The argument is the formatted content; the turn is a new one, unless one is given.
  unfoldable pub add_compaction : Text → Option ℕ → ConversationThread → ConversationThread
  unfolding append_entry set get ℕ_discrete
  add_compaction content (some turn) t =
      append_plain estimate turn compaction (plain user content)
        (record t { turns = set_missing turn t.turns })
  add_compaction content none t =
      append_plain estimate (t.turn_counter + 1) compaction (plain user content) (record t {
        turns = set_missing (t.turn_counter + 1) t.turns;
        turn_counter = t.turn_counter + 1;
      })

  unfoldable pub add_notice : Text → ConversationThread → ConversationThread
  unfolding append_entry set get ℕ_discrete
  add_notice content t = elim t.open_turn_id [
    | some turn ↦
        append_plain estimate turn notice (plain user content)
          (record t { turns = set_missing turn t.turns })
    | none ↦ append_plain estimate (t.turn_counter + 1) notice (plain user content) (record t {
      turns = set_missing (t.turn_counter + 1) t.turns;
      turn_counter = t.turn_counter + 1;
    })
  ]

  abbrev pub put_compaction : ℕ → Text → ConversationThread → ConversationThread
  put_compaction count content t = record t {
    entries =
        new_entry estimate (t.entry_counter + 1) (t.turn_counter + 1) compaction
          (plain user content) none none none
        ∷ drop count t.entries;
    turns = set ℕ_discrete (t.turn_counter + 1) committed (
        delete_turns (gone (turns_of (drop count t.entries)) (turns_of (take count t.entries)))
          t.turns);
    entry_counter = t.entry_counter + 1;
    turn_counter = t.turn_counter + 1;
  }

  unfoldable pub replace_prefix_with_compaction : ℕ → Text → ConversationThread → ConversationThread
  unfolding take set delete ℕ_discrete
  replace_prefix_with_compaction entry_count content t =
      if min entry_count (length t.entries) == 0
      then t
      else put_compaction (min entry_count (length t.entries)) content t

  abbrev pub elide : Text → ThreadEntry → ThreadEntry
  elide content e =
      if is_tool_result e.kind && is_tool e.message
      then record e {
        elided = true;
        original_tokens = some (or_else e.original_tokens e.tokens_est);
        message = with_content content e.message;
        tokens_est = estimate (with_content content e.message);
      }
      else e

  unfoldable pub elide_tool_result : ℕ → Text → ConversationThread → ConversationThread
  unfolding update_entry
  elide_tool_result id content t = record t { entries = update_entry id (elide content) t.entries }

  abbrev pub truncate : Text → ThreadEntry → ThreadEntry
  truncate content e = record e {
    message = with_content content e.message;
    tokens_est = estimate (with_content content e.message);
  }

  unfoldable pub truncate_entry : ℕ → Text → ConversationThread → ConversationThread
  unfolding update_entry
  truncate_entry id content t = record t { entries = update_entry id (truncate content) t.entries }

  abbrev reestimate : ThreadEntry → ThreadEntry
  reestimate e = record e {
    tokens_est = estimate e.message;
    original_tokens =
        if is_tool_result e.kind && not e.elided
        then some (estimate e.message)
        else e.original_tokens;
  }

  unfoldable reestimate_tokens : ConversationThread → ConversationThread
  reestimate_tokens t = record t { entries = map reestimate t.entries }

unfoldable pub build_messages : ConversationThread → List LlmMessage
build_messages t = map (λ e. e.message) t.entries
