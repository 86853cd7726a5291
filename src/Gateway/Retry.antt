-- ===== src/Gateway/Retry.antt =====
-- packages/core/src/tools/toolRetry.ts. Attempt counts, delays and multipliers are natural
-- numbers, so `Math.floor` and `Math.round` do nothing and `Math.max(0, …)` is the identity.
pub mod Laws
use kross.Base.{
  text_eq, ℕ, ◌-◌, ◌*◌, ◌^◌, max, Bool, true, false, ◌||◌, Option, none, some, List, [], ◌∷◌,
  String, if◌then◌else◌, length, ltb, some_of,
}
use kross.Gateway.Types.{Thrown, is_error_named}

pub record Policy : Type 0 where
  pub max_attempts : ℕ
  pub backoff_ms : Option ℕ
  pub backoff_multiplier : Option ℕ
  pub retry_on : Option (Thrown → ℕ → Bool)

pub record ResolvedPolicy : Type 0 where
  pub max_attempts : ℕ
  pub backoff_ms : ℕ
  pub backoff_multiplier : ℕ
  pub retry_on : Thrown → ℕ → Bool

-- `ToolRetryPolicy | false | undefined`.
pub data Setting : Type 0 where
  unset : Setting
  off : Setting
  on : Policy → Setting

abbrev retryable_errno : List String
retryable_errno =
    "EAGAIN" ∷ "EBUSY" ∷ "ETIMEDOUT" ∷ "ECONNRESET" ∷ "ECONNREFUSED" ∷ "EPIPE" ∷ "EIO" ∷ "ENFILE"
    ∷ "EMFILE" ∷ "EAI_AGAIN" ∷ []

abbrev non_retryable_errno : List String
non_retryable_errno =
    "ENOENT" ∷ "ENOTDIR" ∷ "EISDIR" ∷ "EEXIST" ∷ "EPERM" ∷ "EACCES" ∷ "EROFS" ∷ "EINVAL"
    ∷ "ENAMETOOLONG" ∷ "ELOOP" ∷ []

unfoldable pub is_one_of : List String → String → Bool
is_one_of names name = some_of (text_eq name) names

-- The test of the error code, and what is left for an unclassified value.
by_code : Option String → Bool → Bool
unfolding is_one_of
by_code none otherwise = otherwise
by_code (some code) otherwise =
    if is_one_of non_retryable_errno code
    then false
    else if is_one_of retryable_errno code
    then true
    else otherwise

is_retryable_tool_error : Thrown → Bool
unfolding is_error_named by_code
is_retryable_tool_error e =
    if is_error_named e "ToolValidationError"
      || is_error_named e "ToolPermissionError"
      || is_error_named e "ToolNotFoundError"
    then false
    else if e.is_boundary
    then false
    else if is_error_named e "ToolTimeoutError"
    then true
    else by_code e.code e.is_error

default_policy : ResolvedPolicy
unfolding is_retryable_tool_error
default_policy = record {
  max_attempts = 2;
  backoff_ms = 200;
  backoff_multiplier = 2;
  retry_on = λ e attempt. is_retryable_tool_error e;
}

no_retry_policy : ResolvedPolicy
no_retry_policy = record {
  max_attempts = 1;
  backoff_ms = 0;
  backoff_multiplier = 1;
  retry_on = λ e attempt. false;
}

abbrev or_else {ℓ} : {A : Type ℓ} → Option A → A → A
or_else none a = a
or_else (some b) a = b

-- One round of the loop over the layers: a layer that is missing leaves the policy as it is.
pub apply_layer : Setting → ResolvedPolicy → ResolvedPolicy
apply_layer (on layer) resolved = record {
  max_attempts = max 1 layer.max_attempts;
  backoff_ms = or_else layer.backoff_ms resolved.backoff_ms;
  backoff_multiplier = or_else layer.backoff_multiplier resolved.backoff_multiplier;
  retry_on = or_else layer.retry_on resolved.retry_on;
}
apply_layer _ resolved = resolved

-- The settings of the call, of the tool's definition and of the gateway.
unfoldable pub resolve_tool_retry_policy : Setting → Setting → Setting → ResolvedPolicy
unfolding apply_layer default_policy no_retry_policy is_retryable_tool_error
resolve_tool_retry_policy off definition_retry gateway_retry = no_retry_policy
resolve_tool_retry_policy call_retry off gateway_retry = no_retry_policy
resolve_tool_retry_policy call_retry unset off = no_retry_policy
resolve_tool_retry_policy call_retry definition_retry gateway_retry =
    apply_layer call_retry (apply_layer definition_retry (apply_layer gateway_retry default_policy))

unfoldable pub retry_backoff_ms : ResolvedPolicy → ℕ → ℕ
retry_backoff_ms policy failed_attempt =
    policy.backoff_ms * policy.backoff_multiplier ^ (failed_attempt - 1)

pub record AttemptFailure : Type 0 where
  pub attempt : ℕ
  pub message : String

-- The `data` of a failure observation; its texts are not modelled.
pub record FailureData : Type 0 where
  pub attempts : ℕ
  pub max_attempts : ℕ
  pub retried : Bool
  pub errors : List AttemptFailure

unfoldable pub format_tool_failure_observation : List AttemptFailure → ℕ → FailureData
format_tool_failure_observation failures max_attempts = record {
  attempts = length failures;
  max_attempts = max_attempts;
  retried = ltb 1 (length failures);
  errors = failures;
}
