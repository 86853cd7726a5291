-- ===== src/Context/Pairing/Govern.antt =====
-- `govern` of `ContextGovernor` in packages/core/src/context/contextGovernor.ts as a whole.
use kross.Base.{
  Bool-cases, leb, ℕ, ◌≤◌, ◌≡◌, refl, sym, inl, inr, Bool, true, false, Option, none, some, List,
  [], ◌++◌, subst,
}
use kross.Session.ContextPolicy.{ContextPolicy}
use kross.Context.Thread.{ThreadEntryKind, ConversationThread, plain}
use kross.Context.Tokens.{LlmMessage, user}
use kross.Context.Aging.{Texts, estimate_thread_tokens}
use kross.Context.Stages.{
  ContextMaintenanceResult, Surroundings, Stage, apply_tool_aging, apply_turn_compaction,
}
use kross.Context.Governor.{Governed, to_list, is_within, second_stage, govern}
use kross.Context.Stages.Ends.{apply_hard_truncation-ends}
use kross.Context.Pairing.Governed.{
  Keeps, apply_tool_aging-Paired, KeepsStage, apply_turn_compaction-Paired,
  apply_hard_truncation-Paired,
}

module _ (estimate : LlmMessage → ℕ) (texts : Texts) (policy : ContextPolicy) (o : Option ℕ)
    (small : (k : ThreadEntryKind) → estimate (plain user (texts.thread_notice k)) ≤ 256) where
  -- A call that ends with a thread whose results are paired.
  abbrev pub EndsPaired : Option Governed → Type 0
  EndsPaired r = (g : Governed) × (r ≡ some g) × Keeps estimate texts policy o g.thread

  second_stage-EndsPaired :
      (budget : ℕ) (aborts : Bool) (results : List ContextMaintenanceResult)
      (before : ConversationThread) (stage : Option Stage)
      → Keeps estimate texts policy o before
      → KeepsStage estimate texts policy o stage
      → EndsPaired (second_stage estimate texts policy budget aborts results before stage)
  second_stage-EndsPaired budget aborts results before none h k = (_, refl, h)
  second_stage-EndsPaired budget true results before (some s) h k = (_, refl, k)
  second_stage-EndsPaired budget false results before (some s) h k =
      elim (Bool-cases (is_within estimate texts policy budget s)) [
        | inl q ↦ rw (q) (
          record {
            thread = s.1;
            maintenance = some (results ++ to_list estimate texts policy s.0);
          },
          refl,
          k,
        )
        | inr q ↦
            let (u, e) = apply_hard_truncation-ends estimate texts policy small budget s.1 in
            let v =
              subst (KeepsStage estimate texts policy o) e
                (apply_hard_truncation-Paired estimate texts policy o budget s.1 k) in
            rw (q, e)
              (
                record {
                  thread = u.1;
                  maintenance = some (
                      (results ++ to_list estimate texts policy s.0)
                      ++ to_list estimate texts policy u.0);
                },
                refl,
                v,
              )
      ]

  -- If a thread notice counts at most 256 tokens, and each tool result of a thread stands behind
  -- the assistant message of its turn that called it with only results between, then governing the
  -- thread ends, whatever the budget, the policy, the texts, the summary and the abort signal are,
  -- also where it throws; in the thread that it leaves, aged, compacted or truncated, each tool
  -- result still stands so; and the open turn, if there is one, is the same.
  pub govern-EndsPaired :
      (budget : ℕ) (w : Surroundings) (t : ConversationThread)
      → Keeps estimate texts policy o t
      → EndsPaired (govern estimate texts policy budget w t)
  unfolding govern
  govern-EndsPaired budget w t h = elim (Bool-cases w.aborted_at_start) [
    | inl a ↦ (record { thread = t; maintenance = none }, rw (govern, a) refl, h)
    | inr a ↦ elim (Bool-cases (leb (estimate_thread_tokens t) budget)) [
      | inl k ↦ (record { thread = t; maintenance = some [] }, rw (govern, a, k) refl, h)
      | inr k ↦
          let one = apply_tool_aging estimate texts policy t in
          let v = apply_tool_aging-Paired estimate texts policy o t h in
          elim (Bool-cases (is_within estimate texts policy budget one)) [
            | inl q ↦ (
              record { thread = one.1; maintenance = some (to_list estimate texts policy one.0) },
              rw (govern, a, k, q) refl,
              v,
            )
            | inr q ↦ subst EndsPaired (sym (second a k q)) (
                second_stage-EndsPaired budget w.aborted_after_stage
                  (to_list estimate texts policy one.0) one.1
                  (apply_turn_compaction estimate texts policy budget w one.1) v
                  (apply_turn_compaction-Paired estimate texts policy o budget w one.1 v))
          ]
    ]
  ]
    where
      aging : Stage
      aging = apply_tool_aging estimate texts policy t

      second :
          w.aborted_at_start ≡ false
          → leb (estimate_thread_tokens t) budget ≡ false
          → is_within estimate texts policy budget aging ≡ false
          → govern estimate texts policy budget w t
            ≡ second_stage estimate texts policy budget w.aborted_after_stage
                (to_list estimate texts policy aging.0)
                aging.1
                (apply_turn_compaction estimate texts policy budget w aging.1)
      second a k q = rw (govern, a, k, q) refl
