-- ===== src/Context/Tokens.antt =====
-- packages/core/src/context/tokenEstimator.ts. A text is the list of its UTF-16 units, and tokens are
-- counted in quarters. Two things are arguments: `JSON.stringify` of tool calls, and the product with
-- the calibration factor, rounded.
use kross.Base.{
  if◌then◌else◌, leb, ℕ, ◌+◌, ◌/◌, String, Bool, false, ◌&&◌, ◌||◌, Option, none, some, List, [],
  ◌∷◌,
}
use kross.Gateway.Schedule.{ToolCall}

abbrev pub Text : Type 0
Text = List ℕ

pub data Role : Type 0 where
  system user assistant : Role

pub data LlmMessage : Type 0 where
  chat : Role → Text → Option (List ToolCall) → LlmMessage
  tool : String → String → Text → LlmMessage

abbrev pub content_of : LlmMessage → Text
content_of (chat role content calls) = content
content_of (tool id name content) = content

abbrev pub message_overhead_tokens : ℕ
message_overhead_tokens = 4

abbrev within : ℕ → ℕ → ℕ → Bool
within low high c = leb low c && leb c high

unfoldable pub is_cjk : ℕ → Bool
is_cjk c =
    within 19968 40959 c || within 13312 19903 c || within 12352 12543 c || within 44032 55215 c

-- A surrogate pair is one character of `for (const char of text)`.
abbrev is_high : ℕ → Bool
is_high c = within 55296 56319 c

abbrev is_low : ℕ → Bool
is_low c = within 56320 57343 c

abbrev weight : ℕ → ℕ
weight c = if is_cjk c then 4 else 1

-- The second unit of a pair adds nothing.
unfoldable pub quarters : Bool → Text → ℕ
unfolding is_cjk
quarters after_high [] = 0
quarters after_high (c ∷ text) =
    if after_high && is_low c then quarters false text else weight c + quarters (is_high c) text

unfoldable pub estimate_text_tokens : Text → ℕ
unfolding quarters
estimate_text_tokens text = (quarters false text + 3) / 4

module _ (stringify : List ToolCall → Text) (units : String → Text) where
  abbrev call_tokens : Option (List ToolCall) → ℕ
  call_tokens none = 0
  call_tokens (some []) = 0
  call_tokens (some (c ∷ calls)) = estimate_text_tokens (stringify (c ∷ calls))

  unfoldable pub estimate_message_tokens : LlmMessage → ℕ
  unfolding estimate_text_tokens
  estimate_message_tokens (tool id name content) =
      message_overhead_tokens
      + estimate_text_tokens content
      + estimate_text_tokens (units name)
      + estimate_text_tokens (units id)
  estimate_message_tokens (chat role content calls) =
      message_overhead_tokens + estimate_text_tokens content + call_tokens calls

  unfoldable pub estimate_message : (ℕ → ℕ) → LlmMessage → ℕ
  unfolding estimate_message_tokens
  estimate_message calibrated message = calibrated (estimate_message_tokens message)
