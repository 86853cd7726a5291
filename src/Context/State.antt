-- ===== src/Context/State.antt =====
-- `exportState`, `restoreState` and `isConversationThreadState` of
-- packages/core/src/context/conversationThread.ts. A serialised turn id is a number, and what JSON
-- may hold else is taken as refused.
pub mod Restored
use kross.Base.{
  if◌then◌else◌, ◌==◌, ℕ, ◌+◌, Bool, true, false, ◌&&◌, Option, none, some, List, [], ◌∷◌, ◌++◌,
  map, ℕ_discrete,
}
use kross.Base.Maps.{Map, keys, get, set}
use kross.Context.Thread.{
  ThreadEntryKind, TurnStatus, ThreadEntry, ConversationThread, has_turn, clear, new_entry,
  remove_unmatched_tool_calls, reply, tool_result, opened, aborted,
}
use kross.Context.Tokens.{Text, LlmMessage, user, assistant, chat, tool}
use kross.Context.Edits.{add_notice}

pub record SerializedThreadEntry : Type 0 where
  pub turn_id : ℕ
  pub kind : ThreadEntryKind
  pub message : LlmMessage
  pub elided : Bool
  pub iteration : Option ℕ
  pub tool_summary : Option Text
  pub original_tokens : Option ℕ

pub record ConversationThreadState : Type 0 where
  pub entries : List SerializedThreadEntry
  pub turns : Map ℕ TurnStatus
  pub open_turn_id : Option ℕ
  pub current_iteration : ℕ

abbrev pub save_entry : ThreadEntry → SerializedThreadEntry
save_entry e = record {
  turn_id = e.turn_id;
  kind = e.kind;
  message = e.message;
  elided = e.elided;
  iteration = e.iteration;
  tool_summary = e.tool_summary;
  original_tokens = e.original_tokens;
}

unfoldable pub export_state : ConversationThread → ConversationThreadState
export_state t = record {
  entries = map save_entry t.entries;
  turns = t.turns;
  open_turn_id = t.open_turn_id;
  current_iteration = t.current_iteration;
}

abbrev pub is_opened : TurnStatus → Bool
is_opened opened = true
is_opened _ = false

abbrev pub open_turns : Map ℕ TurnStatus → List ℕ
open_turns [] = []
open_turns ((n, s) ∷ turns) = if is_opened s then n ∷ open_turns turns else open_turns turns

unfoldable pub is_entry_role_compatible : ThreadEntryKind → LlmMessage → Bool
is_entry_role_compatible reply (chat assistant c calls) = true
is_entry_role_compatible reply _ = false
is_entry_role_compatible tool_result (tool id name c) = true
is_entry_role_compatible tool_result _ = false
is_entry_role_compatible _ (chat user c calls) = true
is_entry_role_compatible _ _ = false

abbrev pub is_open_consistent : Option ℕ → List ℕ → Bool
is_open_consistent none [] = true
is_open_consistent (some n) (m ∷ []) = n == m
is_open_consistent _ _ = false

abbrev pub every_entry : List ℕ → List SerializedThreadEntry → Bool
every_entry ids [] = true
every_entry ids (e ∷ es) =
    has_turn e.turn_id ids && is_entry_role_compatible e.kind e.message && every_entry ids es

unfoldable pub is_conversation_thread_state : ConversationThreadState → Bool
unfolding is_entry_role_compatible
is_conversation_thread_state s =
    is_open_consistent s.open_turn_id (open_turns s.turns) && every_entry (keys s.turns) s.entries

module _ (estimate : LlmMessage → ℕ) where
  abbrev pub restored_status : Bool → TurnStatus → TurnStatus
  restored_status preserve_open opened = if preserve_open then opened else aborted
  restored_status preserve_open s = s

  -- The first loop, with the map from old to new turn ids.
  unfoldable pub restore_turns :
      Bool → Map ℕ TurnStatus → Map ℕ ℕ → ConversationThread → Map ℕ ℕ × ConversationThread
  restore_turns preserve_open [] ids t = (ids, t)
  restore_turns preserve_open ((n, s) ∷ turns) ids t =
      restore_turns preserve_open turns (set ℕ_discrete n (t.turn_counter + 1) ids) (record t {
        turns = set ℕ_discrete (t.turn_counter + 1) (restored_status preserve_open s) t.turns;
        turn_counter = t.turn_counter + 1;
      })

  abbrev pub restore_entry : ℕ → SerializedThreadEntry → ConversationThread → ConversationThread
  restore_entry turn e t = record t {
    entries =
        t.entries
        ++ record (new_entry estimate (t.entry_counter + 1) turn e.kind e.message e.iteration
            e.tool_summary e.original_tokens) { elided = e.elided }
          ∷ [];
    entry_counter = t.entry_counter + 1;
  }

  unfoldable pub restore_entries :
      Map ℕ ℕ → List SerializedThreadEntry → ConversationThread → ConversationThread
  restore_entries ids [] t = t
  restore_entries ids (e ∷ es) t = elim (get ℕ_discrete e.turn_id ids) [
    | none ↦ restore_entries ids es t
    | some turn ↦ restore_entries ids es (restore_entry turn e t)
  ]

  abbrev pub found_turns : Map ℕ ℕ → List ℕ → List ℕ
  found_turns ids [] = []
  found_turns ids (n ∷ ns) = elim (get ℕ_discrete n ids) [
    | none ↦ found_turns ids ns
    | some m ↦ m ∷ found_turns ids ns
  ]

  unfoldable pub remove_all_unmatched : List ℕ → List ThreadEntry → List ThreadEntry
  unfolding remove_unmatched_tool_calls
  remove_all_unmatched [] es = es
  remove_all_unmatched (n ∷ ns) es =
      remove_all_unmatched ns (remove_unmatched_tool_calls estimate n es)

  -- The open turn is kept, or its dangling calls are removed.
  abbrev pub settle_open : Bool → List ℕ → ConversationThread → ConversationThread
  settle_open true (n ∷ []) t = record t { open_turn_id = some n }
  settle_open preserve_open ns t = record t { entries = remove_all_unmatched ns t.entries }

  abbrev pub note_interruption : Bool → Text → List ℕ → ConversationThread → ConversationThread
  note_interruption true content ns t = t
  note_interruption false content [] t = t
  note_interruption false content (n ∷ ns) t = add_notice estimate content t

  -- The second argument is the text of the notice.
  unfoldable pub restore_state :
      Bool → Text → ConversationThreadState → ConversationThread → Bool × ConversationThread
  unfolding is_conversation_thread_state clear restore_turns restore_entries remove_all_unmatched
      add_notice set get ℕ_discrete
  restore_state preserve_open content s t =
      if is_conversation_thread_state s
      then (let (ids, t1) = restore_turns preserve_open s.turns [] (clear t) in
          let ns = found_turns ids (open_turns s.turns) in
          let t2 = settle_open preserve_open ns (restore_entries ids s.entries t1) in
          (
            true,
            record (note_interruption preserve_open content ns t2) {
              current_iteration = s.current_iteration;
            },
          ))
      else (false, t)
