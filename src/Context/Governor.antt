-- ===== src/Context/Governor.antt =====
-- `govern` and `compactTurnsNow` of `ContextGovernor` in
-- packages/core/src/context/contextGovernor.ts.
use kross.Base.{if◌then◌else◌, leb, ℕ, Bool, false, Option, none, some, List, [], ◌∷◌, ◌++◌}
use kross.Session.ContextPolicy.{ContextPolicy}
use kross.Context.Thread.{ConversationThread}
use kross.Context.Tokens.{LlmMessage}
use kross.Context.Prefix.{select_manual_prefix}
use kross.Context.Aging.{Texts, estimate_thread_tokens}
use kross.Context.Stages.{
  ContextMaintenanceResult, Surroundings, Stage, apply_tool_aging, compact_prefix,
  apply_turn_compaction, apply_hard_truncation, manual,
}

-- What a call leaves: the thread, with the maintenance and the tokens unless it throws.
pub record Governed : Type 0 where
  pub thread : ConversationThread
  pub maintenance : Option (List ContextMaintenanceResult)

module _ (estimate : LlmMessage → ℕ) (texts : Texts) (policy : ContextPolicy) where
  abbrev pub to_list : Option ContextMaintenanceResult → List ContextMaintenanceResult
  to_list none = []
  to_list (some r) = r ∷ []

  abbrev pub is_within : ℕ → Stage → Bool
  is_within budget (none, t) = false
  is_within budget (some r, t) = leb (estimate_thread_tokens t) budget

  abbrev pub done : ConversationThread → List ContextMaintenanceResult → Option Governed
  done t results = some (record { thread = t; maintenance = some results })

  abbrev pub thrown : ConversationThread → Option Governed
  thrown t = some (record { thread = t; maintenance = none })

  abbrev pub last_stage : List ContextMaintenanceResult → Option Stage → Option Governed
  last_stage results none = none
  last_stage results (some (r, t)) = done t (results ++ to_list r)

  abbrev pub second_stage :
      ℕ → Bool → List ContextMaintenanceResult → ConversationThread → Option Stage → Option Governed
  second_stage budget aborts results before none = thrown before
  second_stage budget aborts results before (some stage) =
      if aborts
      then thrown stage.1
      else if is_within budget stage
      then done stage.1 (results ++ to_list stage.0)
      else last_stage (results ++ to_list stage.0)
          (apply_hard_truncation estimate texts policy budget stage.1)

  -- Nothing where the last stage does not end.
  unfoldable pub govern : ℕ → Surroundings → ConversationThread → Option Governed
  unfolding apply_tool_aging apply_turn_compaction apply_hard_truncation
  govern budget world t =
      if world.aborted_at_start
      then thrown t
      else if leb (estimate_thread_tokens t) budget
      then done t []
      else (let one = apply_tool_aging estimate texts policy t in
          if is_within budget one
          then done one.1 (to_list one.0)
          else second_stage budget world.aborted_after_stage (to_list one.0) one.1
              (apply_turn_compaction estimate texts policy budget world one.1))

  unfoldable pub compact_turns_now : Surroundings → ConversationThread → Option Stage
  unfolding select_manual_prefix compact_prefix
  compact_turns_now world t =
      if world.aborted_at_start
      then none
      else elim (select_manual_prefix texts.summary_body t policy.preserve_full_turns) [
        | none ↦ some (none, t)
        | some selection ↦ compact_prefix estimate texts policy manual world selection t
      ]
