-- ===== src/Session/ContextPolicy.antt =====
-- packages/core/src/context/contextPolicy.ts. The context window is a natural number of tokens; then
-- `Math.floor(w * 0.125)` is `w / 8`, and so on.
pub mod Bounds
use kross.Base.{
  ℕ, ◌-◌, ◌*◌, ◌/◌, min, max, Bool, true, false, ◌&&◌, ◌||◌, Option, none, some, if◌then◌else◌, ltb,
}

-- A JavaScript number as the code tests it: `NaN` or an infinity, a number below 0, or one with its
-- integer part and whether something is left behind the point.
pub data Number : Type 0 where
  not_finite negative : Number
  number : ℕ → Bool → Number

pub record ContextPolicyOptions : Type 0 where
  pub context_window : Option ℕ
  pub is_subagent : Bool
  pub preserve_full_turns : Option Number
  pub preserve_recent_tokens : Option Number
  pub preserve_tool_iterations : Option Number
  pub max_tool_result_tokens : Option Number

pub record ContextPolicy : Type 0 where
  pub context_window : ℕ
  pub output_reserve : ℕ
  pub input_budget : ℕ
  pub compact_threshold : ℕ
  pub tool_result_quota : ℕ
  pub preserve_full_turns : ℕ
  pub preserve_recent_tokens : ℕ
  pub preserve_tool_iterations : ℕ
  pub max_tool_result_tokens : ℕ

-- `Number.isFinite(value)`.
abbrev is_finite : Number → Bool
is_finite not_finite = false
is_finite _ = true

-- `value >= 0` and `value > 0`, of a finite number.
abbrev is_non_negative : Number → Bool
is_non_negative (number n fraction) = true
is_non_negative _ = false

abbrev is_positive : Number → Bool
is_positive (number n fraction) = ltb 0 n || fraction
is_positive _ = false

-- `Math.floor`, of a number that is not below 0.
abbrev floor : Number → ℕ
floor (number n fraction) = n
floor _ = 0

normalize_non_negative_int : Option Number → ℕ → ℕ
normalize_non_negative_int none fallback = fallback
normalize_non_negative_int (some value) fallback =
    if is_finite value && is_non_negative value then floor value else fallback

pub normalize_positive_int : Option Number → Option ℕ
normalize_positive_int none = none
normalize_positive_int (some value) =
    if is_finite value && is_positive value then some (floor value) else none

abbrev pub or_default : Option ℕ → ℕ → ℕ
or_default none n = n
or_default (some m) n = m

pub output_reserve_of : ℕ → ℕ
output_reserve_of window = min 32000 (window / 8)

-- `Math.floor(base * multiplier)`, with the multiplier 0.5 or 1.
pub input_budget_of : Bool → ℕ → ℕ
unfolding output_reserve_of
input_budget_of is_subagent window =
    if is_subagent
    then (window - output_reserve_of window) / 2
    else window - output_reserve_of window

-- `default_window` is the constant of llm/modelContextWindows.ts.
pub create_context_policy : ℕ → ContextPolicyOptions → ContextPolicy
unfolding input_budget_of normalize_non_negative_int normalize_positive_int
create_context_policy default_window options =
    let window = or_default options.context_window default_window in
    let budget = input_budget_of options.is_subagent window in
    record {
      context_window = window;
      output_reserve = output_reserve_of window;
      input_budget = budget;
      compact_threshold = budget * 4 / 5;
      tool_result_quota = budget * 2 / 5;
      preserve_full_turns = normalize_non_negative_int options.preserve_full_turns 4;
      preserve_recent_tokens =
          or_default (normalize_positive_int options.preserve_recent_tokens)
            (max 256 (min 20000 (budget / 10)));
      preserve_tool_iterations = normalize_non_negative_int options.preserve_tool_iterations 2;
      max_tool_result_tokens =
          or_default (normalize_positive_int options.max_tool_result_tokens) 2000;
    }
