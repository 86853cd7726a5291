-- ===== src/Context/Stages.antt =====
-- The three stages of `ContextGovernor` in packages/core/src/context/contextGovernor.ts. The
-- summariser and the abort signal are arguments.
pub mod Ends
use kross.Base.{
  length, if◌then◌else◌, leb, ℕ, zero, suc, ◌+◌, ◌/◌, min, max, Bool, true, false, ◌||◌, Option,
  none, ◌++◌, some,
}
use kross.Session.ContextPolicy.{ContextPolicy}
use kross.Context.Thread.{ThreadEntry, ConversationThread}
use kross.Context.Edits.{add_notice, replace_prefix_with_compaction, truncate_entry}
use kross.Context.Tokens.{Text, LlmMessage, content_of}
use kross.Context.Prefix.{CompactionSelection, select_automatic_prefix}
use kross.Context.Aging.{
  Texts, estimate_thread_tokens, truncate_head_tail, entry_at, tool_entries, ids_of_entries,
  max_iteration, cap_results, age_results,
}

pub data GovernanceStage : Type 0 where
  tool_aging turn_compaction hard_truncation : GovernanceStage

pub data ContextMaintenanceReason : Type 0 where
  aged compacted_turns truncated manual : ContextMaintenanceReason

pub record ContextMaintenanceResult : Type 0 where
  pub compacted : Bool
  pub stage : Option GovernanceStage
  pub reason : Option ContextMaintenanceReason
  pub dropped_message_count : ℕ
  pub preserved_message_count : ℕ
  pub tokens_before : ℕ
  pub tokens_after : ℕ
  pub summary_chars : Option ℕ
  pub dropped_turn_count : Option ℕ

-- What happens around a call of the summariser: its summary, if it does not throw, and whether the
-- signal is aborted at the start, behind the summary and behind the second stage.
pub record Surroundings : Type 0 where
  pub summarize : CompactionSelection → Option Text
  pub aborted_at_start : Bool
  pub aborted_after_summary : Bool
  pub aborted_after_stage : Bool

abbrev pub Stage : Type 0
Stage = Option ContextMaintenanceResult × ConversationThread

module _ (estimate : LlmMessage → ℕ) (texts : Texts) (policy : ContextPolicy) where
  abbrev pub stage_result :
      GovernanceStage
      → ContextMaintenanceReason
      → ConversationThread
      → ConversationThread
      → ContextMaintenanceResult
  stage_result stage reason before after = record {
    compacted = true;
    stage = some stage;
    reason = some reason;
    dropped_message_count = 0;
    preserved_message_count = length after.entries;
    tokens_before = estimate_thread_tokens before;
    tokens_after = estimate_thread_tokens after;
    summary_chars = none;
    dropped_turn_count = none;
  }

  abbrev pub changed_stage :
      GovernanceStage
      → ContextMaintenanceReason
      → ConversationThread
      → Bool × ConversationThread
      → Stage
  changed_stage stage reason t (true, t') = (some (stage_result stage reason t t'), t')
  changed_stage stage reason t (false, t') = (none, t')

  abbrev pub either :
      Bool × ConversationThread → Bool × ConversationThread → Bool × ConversationThread
  either one two = (one.0 || two.0, two.1)

  unfoldable pub apply_tool_aging : ConversationThread → Stage
  unfolding cap_results age_results
  apply_tool_aging t =
      let tools = tool_entries t.entries in
      let capped = cap_results estimate texts policy (ids_of_entries tools) t in
      changed_stage tool_aging aged t (
        either capped
          (age_results estimate texts policy (max_iteration tools) (ids_of_entries tools) capped.1))

  abbrev pub compaction_result :
      ContextMaintenanceReason
      → CompactionSelection
      → Text
      → ConversationThread
      → ConversationThread
      → ContextMaintenanceResult
  compaction_result reason selection summary before after = record {
    compacted = true;
    stage = some turn_compaction;
    reason = some reason;
    dropped_message_count = selection.dropped_message_count;
    preserved_message_count = length after.entries;
    tokens_before = estimate_thread_tokens before;
    tokens_after = estimate_thread_tokens after;
    summary_chars = some (length summary);
    dropped_turn_count = some selection.dropped_turn_count;
  }

  -- Nothing is returned where the summariser or the signal throws.
  unfoldable pub compact_prefix :
      ContextMaintenanceReason
      → Surroundings
      → CompactionSelection
      → ConversationThread
      → Option Stage
  unfolding replace_prefix_with_compaction
  compact_prefix reason world selection t = elim (world.summarize selection) [
    | none ↦ none
    | some summary ↦ elim world.aborted_after_summary [
      | true ↦ none
      | false ↦
          let t' =
            replace_prefix_with_compaction estimate selection.entry_count (texts.compaction summary)
              t in
          some (some (compaction_result reason selection summary t t'), t')
    ]
  ]

  unfoldable pub apply_turn_compaction : ℕ → Surroundings → ConversationThread → Option Stage
  unfolding select_automatic_prefix compact_prefix
  apply_turn_compaction budget world t =
      if leb (estimate_thread_tokens t) budget
      then some (none, t)
      else elim (select_automatic_prefix texts.summary_body t
          (min policy.preserve_recent_tokens budget)) [
            | none ↦ some (none, t)
            | some selection ↦ compact_prefix compacted_turns world selection t
          ]

  abbrev pub per_message_cap : ℕ → ConversationThread → ℕ
  per_message_cap budget t = max 256 (budget / max 1 (length t.entries))

  -- The entry with a truncated content, and the notice at the end of the thread.
  unfoldable pub truncate_one : ℕ → ThreadEntry → ConversationThread → ConversationThread
  unfolding truncate_head_tail truncate_entry add_notice
  truncate_one cap e t = add_notice estimate (texts.thread_notice e.kind) (
      truncate_entry estimate e.id
        (truncate_head_tail (content_of e.message) cap ++ texts.truncation_notice e) t)

  abbrev pub then_changed : Option (Bool × ConversationThread) → Option (Bool × ConversationThread)
  then_changed none = none
  then_changed (some r) = some (true, r.1)

  abbrev pub to_stage : ConversationThread → Option (Bool × ConversationThread) → Option Stage
  to_stage t none = none
  to_stage t (some r) = some (changed_stage hard_truncation truncated t r)

  -- The loop over the live list of entries, by position and on fuel: notices that are added are
  -- visited too.
  unfoldable pub truncate_from : ℕ → ℕ → ℕ → ConversationThread → Option (Bool × ConversationThread)
  unfolding truncate_one
  truncate_from zero cap i t = elim (entry_at i t.entries) [
    | none ↦ some (false, t)
    | some e ↦ none
  ]
  truncate_from (suc fuel) cap i t = elim (entry_at i t.entries) [
    | none ↦ some (false, t)
    | some e ↦ elim (leb e.tokens_est cap) [
      | true ↦ truncate_from fuel cap (suc i) t
      | false ↦ then_changed (truncate_from fuel cap (suc i) (truncate_one cap e t))
    ]
  ]

  -- Every visit of an entry that was there adds at most one notice.
  unfoldable pub apply_hard_truncation : ℕ → ConversationThread → Option Stage
  unfolding truncate_from
  apply_hard_truncation budget t =
      if leb (estimate_thread_tokens t) budget
      then some (none, t)
      else to_stage t
          (truncate_from (length t.entries + length t.entries) (per_message_cap budget t) 0 t)
