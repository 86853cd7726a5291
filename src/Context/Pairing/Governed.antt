-- ===== src/Context/Pairing/Governed.antt =====
-- `ContextGovernor` of packages/core/src/context/contextGovernor.ts and the pairing of calls and
-- results.
use kross.Base.{
  length, Bool-cases, Option-cases, ltb, leb, ◌==◌, drop, ℕ, zero, suc, ◌≤◌, ◌<◌, min, ◌≡◌, refl,
  sym, inl, inr, Bool, true, false, not, ◌&&◌, ◌||◌, Option, none, some, List, [], ◌∷◌, arith,
  dec_le, subst,
}
use kross.Session.ContextPolicy.{ContextPolicy}
use kross.Context.Thread.{ThreadEntry, ConversationThread, append_entry}
use kross.Context.Tokens.{Text, LlmMessage}
use kross.Context.Edits.{
  add_notice, replace_prefix_with_compaction, elide_tool_result, truncate_entry,
}
use kross.Context.Prefix.{CompactionSelection, select_automatic_prefix}
use kross.Context.Aging.{
  Texts, estimate_thread_tokens, find_entry, entry_at, tool_entries, recalc_tool_tokens,
  ids_of_entries, max_iteration, cap_results, should_age, age_results,
}
use kross.Context.Stages.{
  GovernanceStage, ContextMaintenanceReason, Surroundings, Stage, changed_stage, apply_tool_aging,
  compact_prefix, apply_turn_compaction, truncate_one, then_changed, to_stage, truncate_from,
  apply_hard_truncation, tool_aging, hard_truncation, aged, compacted_turns, truncated,
}
use kross.Context.Pairing.{
  Paired, truncate_entry-Paired, elide_tool_result-Paired, add_notice-Paired,
}
use kross.Context.Pairing.Cuts.{Safe}
use kross.Context.Pairing.Selected.{select_automatic_prefix-Safe}

drop_past : (n : ℕ) (es : List ThreadEntry) → length es ≤ n → drop n es ≡ []
drop_past zero [] h = refl
drop_past (suc n) [] h = refl
drop_past zero (e ∷ es) h = absurd (omega (arith, h))
drop_past (suc n) (e ∷ es) h = drop_past n es (omega (arith, h))

min-Safe : (es : List ThreadEntry) (n : ℕ) → Safe es n → Safe es (min n (length es))
min-Safe es n h = elim (dec_le n (length es)) [
  | yes l ↦ subst (Safe es) (short n (length es) l) h
  | no l ↦
      subst (Safe es) (long n (length es) (omega (arith, l)))
        (subst (Paired none) (sym (drop_past (length es) es (omega arith))) tt)
]
  where
    short : (n m : ℕ) → n ≤ m → n ≡ min n m
    short n m l = omega (arith, l)

    long : (n m : ℕ) → m < n → m ≡ min n m
    long n m l = omega (arith, l)

module _ (estimate : LlmMessage → ℕ) where
  replace_prefix-Paired :
      (n : ℕ) (c : Text) (t : ConversationThread)
      → Paired none t.entries
      → Safe t.entries n
      → Paired none (replace_prefix_with_compaction estimate n c t).entries
  unfolding replace_prefix_with_compaction
  replace_prefix-Paired n c t h s = elim (Bool-cases (min n (length t.entries) == 0)) [
    | inl e ↦ rw (replace_prefix_with_compaction, e) h
    | inr e ↦ rw (replace_prefix_with_compaction, e) (tt, min-Safe t.entries n s)
  ]

module _ (estimate : LlmMessage → ℕ) (texts : Texts) (policy : ContextPolicy) (o : Option ℕ) where
  -- The results are paired, and the open turn is the given one.
  abbrev pub Keeps : ConversationThread → Type 0
  Keeps t = Paired none t.entries × (t.open_turn_id ≡ o)

  truncate_entry-Keeps :
      (id : ℕ) (c : Text) (t : ConversationThread)
      → Keeps t
      → Keeps (truncate_entry estimate id c t)
  unfolding truncate_entry
  truncate_entry-Keeps id c t h = (truncate_entry-Paired estimate id c t h.0, h.1)

  elide_tool_result-Keeps :
      (id : ℕ) (c : Text) (t : ConversationThread)
      → Keeps t
      → Keeps (elide_tool_result estimate id c t)
  unfolding elide_tool_result
  elide_tool_result-Keeps id c t h = (elide_tool_result-Paired estimate id c t h.0, h.1)

  add_notice-Keeps : (c : Text) (t : ConversationThread) → Keeps t → Keeps (add_notice estimate c t)
  unfolding add_notice append_entry
  add_notice-Keeps c t h = (add_notice-Paired estimate c t h.0, same)
    where
      same : (add_notice estimate c t).open_turn_id ≡ o
      same = elim (Option-cases t.open_turn_id) [
        | inl e ↦ rw (add_notice, e) h.1
        | inr (n, e) ↦ rw (add_notice, e) h.1
      ]

  replace_prefix-Keeps :
      (n : ℕ) (c : Text) (t : ConversationThread)
      → Keeps t
      → Safe t.entries n
      → Keeps (replace_prefix_with_compaction estimate n c t)
  unfolding replace_prefix_with_compaction
  replace_prefix-Keeps n c t h s = (replace_prefix-Paired estimate n c t h.0 s, same)
    where
      same : (replace_prefix_with_compaction estimate n c t).open_turn_id ≡ o
      same = elim (Bool-cases (min n (length t.entries) == 0)) [
        | inl e ↦ rw (replace_prefix_with_compaction, e) h.1
        | inr e ↦ rw (replace_prefix_with_compaction, e) h.1
      ]

  cap_results-Paired :
      (ids : List ℕ) (t : ConversationThread)
      → Keeps t
      → Keeps (cap_results estimate texts policy ids t).1
  unfolding cap_results
  cap_results-Paired [] t h = h
  cap_results-Paired (id ∷ ids) t h = elim (Option-cases (find_entry id t.entries)) [
    | inl e ↦ rw (e, cap_results) (cap_results-Paired ids t h)
    | inr (x, e) ↦ elim (Bool-cases (ltb policy.max_tool_result_tokens x.tokens_est)) [
      | inr k ↦ rw (e, k, cap_results) (cap_results-Paired ids t h)
      | inl k ↦ rw (e, k, cap_results) (cap_results-Paired ids _ (truncate_entry-Keeps id _ t h))
    ]
  ]

  age_results-Paired :
      (newest : ℕ) (ids : List ℕ) (t : ConversationThread)
      → Keeps t
      → Keeps (age_results estimate texts policy newest ids t).1
  unfolding age_results
  age_results-Paired newest [] t h = h
  age_results-Paired newest (id ∷ ids) t h = elim (Option-cases (find_entry id t.entries)) [
    | inl e ↦ rw (e, age_results) (age_results-Paired newest ids t h)
    | inr (x, e) ↦
        elim (Bool-cases
          (should_age estimate texts policy newest (recalc_tool_tokens t) x && not x.elided)) [
            | inr k ↦ rw (e, k, age_results) (age_results-Paired newest ids t h)
            | inl k ↦
                let t' = elide_tool_result estimate id (texts.elided x) t in
                let h' = elide_tool_result-Keeps id (texts.elided x) t h in
                elim (Bool-cases (leb (recalc_tool_tokens t') policy.tool_result_quota)) [
                  | inl q ↦ rw (e, k, age_results, q) h'
                  | inr q ↦ rw (e, k, age_results, q) (age_results-Paired newest ids t' h')
                ]
          ]
  ]

  changed_stage-Keeps :
      (s : GovernanceStage) (r : ContextMaintenanceReason) (t : ConversationThread)
      (w : Bool × ConversationThread)
      → Keeps w.1
      → Keeps (changed_stage estimate texts policy s r t w).1
  changed_stage-Keeps s r t (true, u) h = h
  changed_stage-Keeps s r t (false, u) h = h

  pub apply_tool_aging-Paired :
      (t : ConversationThread) → Keeps t → Keeps (apply_tool_aging estimate texts policy t).1
  unfolding apply_tool_aging
  apply_tool_aging-Paired t h =
      let tools = tool_entries t.entries in
      let ids = ids_of_entries tools in
      let capped = cap_results estimate texts policy ids t in
      let aging = age_results estimate texts policy (max_iteration tools) ids capped.1 in
      changed_stage-Keeps tool_aging aged t (capped.0 || aging.0, aging.1)
        (age_results-Paired (max_iteration tools) ids capped.1 (cap_results-Paired ids t h))

  -- What a stage leaves, where it leaves something.
  abbrev pub KeepsStage : Option Stage → Type 0
  KeepsStage none = Unit
  KeepsStage (some s) = Keeps s.1

  pub compact_prefix-Paired :
      (r : ContextMaintenanceReason) (w : Surroundings) (s : CompactionSelection)
      (t : ConversationThread)
      → Keeps t
      → Safe t.entries s.entry_count
      → KeepsStage (compact_prefix estimate texts policy r w s t)
  unfolding compact_prefix
  compact_prefix-Paired r w s t h k = elim (Option-cases (w.summarize s)) [
    | inl e ↦ rw (compact_prefix, e) tt
    | inr (c, e) ↦ elim (Bool-cases w.aborted_after_summary) [
      | inl q ↦ rw (compact_prefix, e, q) tt
      | inr q ↦
          rw (compact_prefix, e, q) (replace_prefix-Keeps s.entry_count (texts.compaction c) t h k)
    ]
  ]

  pub apply_turn_compaction-Paired :
      (budget : ℕ) (w : Surroundings) (t : ConversationThread)
      → Keeps t
      → KeepsStage (apply_turn_compaction estimate texts policy budget w t)
  unfolding apply_turn_compaction
  apply_turn_compaction-Paired budget w t h =
      elim (Bool-cases (leb (estimate_thread_tokens t) budget)) [
        | inl k ↦ rw (apply_turn_compaction, k) h
        | inr k ↦
            elim (Option-cases (
              select_automatic_prefix texts.summary_body t
                (min policy.preserve_recent_tokens budget))) [
                  | inl e ↦ rw (apply_turn_compaction, k, e) h
                  | inr (s, e) ↦
                      rw (apply_turn_compaction, k, e)
                        (compact_prefix-Paired compacted_turns w s t h
                          (select_automatic_prefix-Safe texts.summary_body t _ s h.0 e))
                ]
      ]

  truncate_one-Paired :
      (cap : ℕ) (e : ThreadEntry) (t : ConversationThread)
      → Keeps t
      → Keeps (truncate_one estimate texts policy cap e t)
  unfolding truncate_one
  truncate_one-Paired cap e t h = add_notice-Keeps _ _ (truncate_entry-Keeps e.id _ t h)

  abbrev KeepsChange : Option (Bool × ConversationThread) → Type 0
  KeepsChange none = Unit
  KeepsChange (some s) = Keeps s.1

  truncate_from-Paired :
      (fuel cap i : ℕ) (t : ConversationThread)
      → Keeps t
      → KeepsChange (truncate_from estimate texts policy fuel cap i t)
  unfolding truncate_from
  truncate_from-Paired zero cap i t h = elim (Option-cases (entry_at i t.entries)) [
    | inl e ↦ rw (truncate_from, e) h
    | inr (x, e) ↦ rw (truncate_from, e) tt
  ]
  truncate_from-Paired (suc fuel) cap i t h = elim (Option-cases (entry_at i t.entries)) [
    | inl e ↦ rw (truncate_from, e) h
    | inr (x, e) ↦ elim (Bool-cases (leb x.tokens_est cap)) [
      | inl k ↦ rw (truncate_from, e, k) (truncate_from-Paired fuel cap (suc i) t h)
      | inr k ↦
          rw (truncate_from, e, k)
            (changed _ (truncate_from-Paired fuel cap (suc i) _ (truncate_one-Paired cap x t h)))
    ]
  ]
    where
      changed :
          (w : Option (Bool × ConversationThread))
          → KeepsChange w
          → KeepsChange (then_changed estimate texts policy w)
      changed none h = tt
      changed (some s) h = h

  pub apply_hard_truncation-Paired :
      (budget : ℕ) (t : ConversationThread)
      → Keeps t
      → KeepsStage (apply_hard_truncation estimate texts policy budget t)
  unfolding apply_hard_truncation
  apply_hard_truncation-Paired budget t h =
      elim (Bool-cases (leb (estimate_thread_tokens t) budget)) [
        | inl k ↦ rw (apply_hard_truncation, k) h
        | inr k ↦ rw (apply_hard_truncation, k) (staged _ (truncate_from-Paired _ _ 0 t h))
      ]
    where
      staged :
          (w : Option (Bool × ConversationThread))
          → KeepsChange w
          → KeepsStage (to_stage estimate texts policy t w)
      staged none h = tt
      staged (some s) h = changed_stage-Keeps hard_truncation truncated t s h
