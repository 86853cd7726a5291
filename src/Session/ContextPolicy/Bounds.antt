-- ===== src/Session/ContextPolicy/Bounds.antt =====
-- The budgets of packages/core/src/context/contextPolicy.ts.
use kross.Base.{
  ℕ, ◌+◌, ◌*◌, ◌-◌, ◌/◌, ◌≤◌, ◌<◌, ◌≡◌, ◌⊎◌, if◌then◌else◌, dec_lt, inl, inr, refl, ◌↔◌, Bool, true,
  false, Option, none, some, arith, zero, suc, min,
}
use kross.Session.ContextPolicy.{
  Number, not_finite, negative, number, ContextPolicyOptions, ContextPolicy, create_context_policy,
  normalize_positive_int, or_default, output_reserve_of,
}

-- `part` is the integer part of `num / den` of `whole`.
abbrev IsShare : ℕ → ℕ → ℕ → ℕ → Type 0
IsShare num den whole part = (part * den ≤ whole * num) × (whole * num < (part + 1) * den)

-- What the comment on `createContextPolicy` promises: the output has an eighth of the window, or
-- 32000 where that is less; the input has the rest, a subagent half of it; compaction starts at 80
-- percent of the input, and tool results have 40 percent.
pub record Splits (is_subagent : Bool) (p : ContextPolicy) : Type 0 where
  pub eighth : ℕ
  pub share : IsShare 1 8 p.context_window eighth
  pub reserve :
      ((p.output_reserve ≡ eighth) × (eighth ≤ 32000))
      ⊎ ((p.output_reserve ≡ 32000) × (32000 < eighth))
  pub rest : ℕ
  pub window : p.output_reserve + rest ≡ p.context_window
  pub input :
      ((is_subagent ≡ false) × (p.input_budget ≡ rest))
      ⊎ ((is_subagent ≡ true) × IsShare 1 2 rest p.input_budget)
  pub threshold : IsShare 4 5 p.input_budget p.compact_threshold
  pub quota : IsShare 2 5 p.input_budget p.tool_result_quota

-- A number above 0 and below 1.
abbrev pub tiny : Option Number
tiny = some (number 0 true)

or_default-normalize_zero :
    (value : Option Number) (fallback : ℕ)
    → 1 ≤ fallback
    → (or_default (normalize_positive_int value) fallback ≡ 0) ↔ (value ≡ tiny)
unfolding normalize_positive_int
or_default-normalize_zero none fallback h = ((λ e. absurd (omega arith)), (λ e. cc))
or_default-normalize_zero (some not_finite) fallback h = ((λ e. absurd (omega arith)), (λ e. cc))
or_default-normalize_zero (some negative) fallback h = ((λ e. absurd (omega arith)), (λ e. cc))
or_default-normalize_zero (some (number zero false)) fallback h =
    ((λ e. absurd (omega arith)), (λ e. cc))
or_default-normalize_zero (some (number zero true)) fallback h = ((λ e. refl), (λ e. refl))
or_default-normalize_zero (some (number (suc n) fraction)) fallback h =
    ((λ e. absurd (ground arith)), (λ e. cc))

create_context_policy-Splits :
    (default_window : ℕ) (options : ContextPolicyOptions)
    → Splits options.is_subagent (create_context_policy default_window options)
unfolding create_context_policy
create_context_policy-Splits default_window options =
    let window = or_default options.context_window default_window in
    record {
      eighth = window / 8;
      share = omega arith;
      reserve = reserve_cases (window / 8);
      rest = window - output_reserve_of window;
      window = omega arith;
      input = input_cases options.is_subagent (window - output_reserve_of window);
      threshold = omega arith;
      quota = omega arith;
    }
  where
    reserve_cases :
        (n : ℕ) → ((min 32000 n ≡ n) × (n ≤ 32000)) ⊎ ((min 32000 n ≡ 32000) × (32000 < n))
    reserve_cases n = elim (dec_lt 32000 n) [
      | yes h ↦ inr (omega arith, h)
      | no h ↦ inl (omega arith, omega arith)
    ]

    input_cases :
        (b : Bool) (n : ℕ)
        → ((b ≡ false) × ((if b then n / 2 else n) ≡ n))
          ⊎ ((b ≡ true) × IsShare 1 2 n (if b then n / 2 else n))
    input_cases false n = inl (refl, refl)
    input_cases true n = inr (refl, omega arith)

-- For any default window and options: the reserve for the output is an eighth of the window, and at
-- most 32000, the input budget is the rest, or half of it for a subagent, compaction starts at 80
-- percent of the input budget, and tool results have 40 percent of it, each rounded down; and the
-- recent tokens to keep, and the largest tool result, are 0 if and only if the option for them is a
-- number above 0 and below 1.
pub create_context_policy-Budgets :
    (default_window : ℕ) (options : ContextPolicyOptions)
    → Splits options.is_subagent (create_context_policy default_window options)
      × (((create_context_policy default_window options).preserve_recent_tokens ≡ 0)
          ↔ (options.preserve_recent_tokens ≡ tiny))
      × (((create_context_policy default_window options).max_tool_result_tokens ≡ 0)
          ↔ (options.max_tool_result_tokens ≡ tiny))
unfolding create_context_policy
create_context_policy-Budgets default_window options = (
  create_context_policy-Splits default_window options,
  or_default-normalize_zero options.preserve_recent_tokens _ (omega arith),
  or_default-normalize_zero options.max_tool_result_tokens 2000 (omega arith),
)
