-- ===== src/Context/Thread.antt =====
-- `ConversationThread` of packages/core/src/context/conversationThread.ts. A turn id is its number:
-- the prefixes of the texts tell no two apart. Both counters are global there; here each thread
-- carries what it sees of them. The estimate of a message and the texts of compactions and notices
-- are arguments. A method that throws returns nothing.
use kross.Base.{
  filter_by, if◌then◌else◌, ◌==◌, ℕ, ◌+◌, String, Bool, true, false, ◌||◌, Option, none, List, [],
  ◌∷◌, ◌++◌, map, ℕ_discrete, some,
}
use kross.Base.Maps.{Map, get, set}
use kross.Conductor.Plan.{has}
use kross.Context.Tokens.{Text, Role, LlmMessage, user, assistant, chat, tool}
use kross.Gateway.Schedule.{ToolCall}

pub data ThreadEntryKind : Type 0 where
  user_input reply tool_result compaction notice : ThreadEntryKind

pub data TurnStatus : Type 0 where
  opened committed aborted : TurnStatus

pub record ThreadEntry : Type 0 where
  pub id : ℕ
  pub turn_id : ℕ
  pub kind : ThreadEntryKind
  pub message : LlmMessage
  pub tokens_est : ℕ
  pub elided : Bool
  pub iteration : Option ℕ
  pub tool_summary : Option Text
  pub original_tokens : Option ℕ

pub record ConversationThread : Type 0 where
  pub entries : List ThreadEntry
  pub turns : Map ℕ TurnStatus
  pub open_turn_id : Option ℕ
  pub current_iteration : ℕ
  pub entry_counter : ℕ
  pub turn_counter : ℕ

pub record ToolResultInput : Type 0 where
  pub tool_call_id : String
  pub name : String
  pub content : Text
  pub summary : Option Text
  pub iteration : Option ℕ

abbrev pub plain : Role → Text → LlmMessage
plain role content = chat role content none

abbrev pub is_turn : ℕ → ThreadEntry → Bool
is_turn turn e = e.turn_id == turn

abbrev pub or_else : {A : Type 0} → Option A → A → A
or_else none x = x
or_else (some y) x = y

-- `new Set` of the numbers.
abbrev pub has_turn : ℕ → List ℕ → Bool
has_turn n [] = false
has_turn n (m ∷ ms) = (m == n) || has_turn n ms

-- `if (turn) turn.status = …`.
unfoldable pub set_status : ℕ → TurnStatus → Map ℕ TurnStatus → Map ℕ TurnStatus
unfolding set get ℕ_discrete
set_status turn status turns = elim (get ℕ_discrete turn turns) [
  | none ↦ turns
  | some s ↦ set ℕ_discrete turn status turns
]

-- `find` by id and the change of what is found.
unfoldable pub update_entry : ℕ → (ThreadEntry → ThreadEntry) → List ThreadEntry → List ThreadEntry
update_entry id f [] = []
update_entry id f (e ∷ es) = if e.id == id then f e ∷ es else e ∷ update_entry id f es

unfoldable pub clear : ConversationThread → ConversationThread
clear t = record t { entries = []; turns = []; open_turn_id = none; current_iteration = 0 }

-- `removeUnmatchedToolCalls`.
unfoldable pub result_ids : ℕ → List ThreadEntry → List String
result_ids turn [] = []
result_ids turn (e ∷ es) = elim e.message [
  | chat role content calls ↦ result_ids turn es
  | tool id name content ↦ if is_turn turn e then id ∷ result_ids turn es else result_ids turn es
]

abbrev pub some_calls : List ToolCall → Option (List ToolCall)
some_calls [] = none
some_calls (c ∷ calls) = some (c ∷ calls)

abbrev pub matched : List String → List ToolCall → List ToolCall
matched ids calls = filter_by (λ c. has c.id ids) calls

-- The new message of an assistant entry of the turn that has calls.
unfoldable pub matched_message : Bool → List String → LlmMessage → Option LlmMessage
unfolding has
matched_message true ids (chat assistant content (some calls)) =
    some (chat assistant content (some_calls (matched ids calls)))
matched_message in_turn ids m = none

module _ (estimate : LlmMessage → ℕ) where
  abbrev pub new_entry :
      ℕ → ℕ → ThreadEntryKind → LlmMessage → Option ℕ → Option Text → Option ℕ → ThreadEntry
  new_entry id turn kind message iteration summary original = record {
    id = id;
    turn_id = turn;
    kind = kind;
    message = message;
    tokens_est = estimate message;
    elided = false;
    iteration = iteration;
    tool_summary = summary;
    original_tokens = original;
  }

  unfoldable pub append_entry :
      ℕ
      → ThreadEntryKind
      → LlmMessage
      → Option ℕ
      → Option Text
      → Option ℕ
      → ConversationThread
      → ConversationThread
  append_entry turn kind message iteration summary original t = record t {
    entries =
        t.entries
        ++ new_entry (t.entry_counter + 1) turn kind message iteration summary original ∷ [];
    entry_counter = t.entry_counter + 1;
  }

  abbrev pub append_plain :
      ℕ → ThreadEntryKind → LlmMessage → ConversationThread → ConversationThread
  append_plain turn kind message t = append_entry turn kind message none none none t

  unfoldable pub begin_turn : Text → ConversationThread → Option (ℕ × ConversationThread)
  unfolding append_entry
  begin_turn input t = elim t.open_turn_id [
    | some turn ↦ none
    | none ↦ some (
      t.turn_counter + 1,
      append_plain (t.turn_counter + 1) user_input (plain user input) (record t {
        turns = set ℕ_discrete (t.turn_counter + 1) opened t.turns;
        open_turn_id = some (t.turn_counter + 1);
        turn_counter = t.turn_counter + 1;
      }),
    )
  ]

  abbrev pub close_turn : ℕ → TurnStatus → ConversationThread → ConversationThread
  close_turn turn status t = record t {
    turns = set_status turn status t.turns;
    open_turn_id = none;
  }

  unfoldable pub commit_turn : ConversationThread → Option ConversationThread
  unfolding set_status
  commit_turn t = elim t.open_turn_id [
    | none ↦ none
    | some turn ↦ some (close_turn turn committed t)
  ]

  -- The argument is the text of the notice.
  unfoldable pub abort_turn : Text → ConversationThread → Option ConversationThread
  unfolding set_status append_entry
  abort_turn reason t = elim t.open_turn_id [
    | none ↦ none
    | some turn ↦ some (close_turn turn aborted (append_plain turn notice (plain user reason) t))
  ]

  abbrev pub with_message : ThreadEntry → Option LlmMessage → ThreadEntry
  with_message e none = e
  with_message e (some m) = record e { message = m; tokens_est = estimate m }

  unfoldable pub match_calls : ℕ → List String → ThreadEntry → ThreadEntry
  unfolding matched_message
  match_calls turn ids e = with_message e (matched_message (is_turn turn e) ids e.message)

  unfoldable pub remove_unmatched_tool_calls : ℕ → List ThreadEntry → List ThreadEntry
  unfolding match_calls result_ids
  remove_unmatched_tool_calls turn es = map (match_calls turn (result_ids turn es)) es

  unfoldable pub interrupt_turn : Text → ConversationThread → Option ConversationThread
  unfolding remove_unmatched_tool_calls abort_turn
  interrupt_turn reason t = elim t.open_turn_id [
    | none ↦ none
    | some turn ↦
        abort_turn reason (record t { entries = remove_unmatched_tool_calls turn t.entries })
  ]

  unfoldable pub append_assistant :
      Text → List ToolCall → ConversationThread → Option ConversationThread
  unfolding append_entry
  append_assistant content calls t = elim t.open_turn_id [
    | none ↦ none
    | some turn ↦ some (append_plain turn reply (chat assistant content (some_calls calls)) t)
  ]

  -- The original tokens of a result are its estimate.
  unfoldable pub append_tool_result :
      ToolResultInput → ConversationThread → Option ConversationThread
  unfolding append_entry
  append_tool_result r t = elim t.open_turn_id [
    | none ↦ none
    | some turn ↦ some (
        append_entry turn tool_result (tool r.tool_call_id r.name r.content)
          (some (or_else r.iteration t.current_iteration)) r.summary
          (some (estimate (tool r.tool_call_id r.name r.content))) t)
  ]
