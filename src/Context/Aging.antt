-- ===== src/Context/Aging.antt =====
-- The aging of tool results, and the texts that governance puts in, in
-- packages/core/src/context/contextGovernor.ts.
use kross.Base.{
  length, filter_by, if◌then◌else◌, ltb, leb, ◌==◌, take_last, ℕ, zero, suc, ◌+◌, ◌-◌, ◌*◌, ◌/◌,
  max, Bool, true, false, not, ◌&&◌, ◌||◌, Option, none, some, List, [], ◌∷◌, ◌++◌,
}
use kross.Session.ContextPolicy.{ContextPolicy}
use kross.Context.Thread.{ThreadEntryKind, ThreadEntry, ConversationThread, or_else}
use kross.Context.Edits.{is_tool_result, elide_tool_result, truncate_entry}
use kross.Context.Tokens.{Text, LlmMessage, content_of}
use kross.Context.Prefix.{sum_tokens}

-- The texts that are put in.
pub record Texts : Type 0 where
  pub elided : ThreadEntry → Text
  pub truncation_notice : ThreadEntry → Text
  pub thread_notice : ThreadEntryKind → Text
  pub compaction : Text → Text
  pub summary_body : Text → Text

abbrev pub estimate_thread_tokens : ConversationThread → ℕ
estimate_thread_tokens t = sum_tokens t.entries

-- `\n…[中间已省略]…\n`.
abbrev pub omission : Text
omission = 10 ∷ 8230 ∷ 91 ∷ 20013 ∷ 38388 ∷ 24050 ∷ 30465 ∷ 30053 ∷ 93 ∷ 8230 ∷ 10 ∷ []

abbrev pub take_units : ℕ → Text → Text
take_units zero text = []
take_units (suc n) [] = []
take_units (suc n) (c ∷ text) = c ∷ take_units n text

abbrev pub max_chars : ℕ → ℕ
max_chars max_tokens = max 32 (max_tokens * 4)

unfoldable pub truncate_head_tail : Text → ℕ → Text
truncate_head_tail content max_tokens =
    if leb (length content) (max_chars max_tokens)
    then content
    else take_units ((max_chars max_tokens - 20) / 2) content
      ++ omission
      ++ take_last ((max_chars max_tokens - 20) / 2) content

abbrev pub find_entry : ℕ → List ThreadEntry → Option ThreadEntry
find_entry id [] = none
find_entry id (e ∷ es) = if e.id == id then some e else find_entry id es

abbrev pub entry_at : ℕ → List ThreadEntry → Option ThreadEntry
entry_at i [] = none
entry_at zero (e ∷ es) = some e
entry_at (suc i) (e ∷ es) = entry_at i es

abbrev pub tool_entries : List ThreadEntry → List ThreadEntry
tool_entries es = filter_by (λ e. is_tool_result e.kind) es

abbrev pub recalc_tool_tokens : ConversationThread → ℕ
recalc_tool_tokens t = sum_tokens (tool_entries t.entries)

abbrev pub ids_of_entries : List ThreadEntry → List ℕ
ids_of_entries [] = []
ids_of_entries (e ∷ es) = e.id ∷ ids_of_entries es

abbrev pub iteration_of : ThreadEntry → ℕ
iteration_of e = or_else e.iteration 0

abbrev pub max_iteration : List ThreadEntry → ℕ
max_iteration [] = 0
max_iteration (e ∷ es) = max (iteration_of e) (max_iteration es)

module _ (estimate : LlmMessage → ℕ) (texts : Texts) (policy : ContextPolicy) where
  -- The first loop of the aging: long results lose their middle. An entry is the same object in the
  -- snapshot and in the thread, so it is read anew.
  unfoldable pub cap_results : List ℕ → ConversationThread → Bool × ConversationThread
  unfolding truncate_head_tail truncate_entry
  cap_results [] t = (false, t)
  cap_results (id ∷ ids) t = elim (find_entry id t.entries) [
    | none ↦ cap_results ids t
    | some e ↦ elim (ltb policy.max_tool_result_tokens e.tokens_est) [
      | false ↦ cap_results ids t
      | true ↦ (
        true,
        (cap_results ids (
            truncate_entry estimate id
              (truncate_head_tail (content_of e.message) policy.max_tool_result_tokens) t)).1,
      )
    ]
  ]

  -- `iteration < maxIteration - preserveToolIterations + 1 || toolTokens > toolResultQuota`.
  abbrev pub should_age : ℕ → ℕ → ThreadEntry → Bool
  should_age newest tool_tokens e =
      ltb (iteration_of e + policy.preserve_tool_iterations) (newest + 1)
      || ltb policy.tool_result_quota tool_tokens

  -- The second loop: results are elided until their tokens are within the quota.
  unfoldable pub age_results : ℕ → List ℕ → ConversationThread → Bool × ConversationThread
  unfolding elide_tool_result
  age_results newest [] t = (false, t)
  age_results newest (id ∷ ids) t = elim (find_entry id t.entries) [
    | none ↦ age_results newest ids t
    | some e ↦ elim (should_age newest (recalc_tool_tokens t) e && not e.elided) [
      | false ↦ age_results newest ids t
      | true ↦
          let t' = elide_tool_result estimate id (texts.elided e) t in
          (
            true,
            elim (leb (recalc_tool_tokens t') policy.tool_result_quota) [
              | true ↦ t'
              | false ↦ (age_results newest ids t').1
            ],
          )
    ]
  ]
