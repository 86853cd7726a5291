-- ===== src/Gateway/Retry/Laws.antt =====
-- The policy that packages/core/src/tools/toolRetry.ts resolves.
use kross.Base.{◌≤◌, arith}
use kross.Gateway.Retry.{
  Setting, unset, off, on, ResolvedPolicy, apply_layer, resolve_tool_retry_policy,
}

apply_layer-positive :
    (s : Setting) (r : ResolvedPolicy) → 1 ≤ r.max_attempts → 1 ≤ (apply_layer s r).max_attempts
unfolding apply_layer
apply_layer-positive (on p) r h = omega arith
apply_layer-positive _ r h = h

-- Whatever the retry settings of the call, of the tool and of the gateway are, the resolved policy
-- allows at least one attempt.
pub resolve-max_attempts_positive :
    (call definition gateway : Setting)
    → 1 ≤ (resolve_tool_retry_policy call definition gateway).max_attempts
unfolding resolve_tool_retry_policy
resolve-max_attempts_positive off d g = omega arith
resolve-max_attempts_positive unset off g = omega arith
resolve-max_attempts_positive unset unset off = omega arith
resolve-max_attempts_positive unset unset _ = omega arith
resolve-max_attempts_positive unset (on p) _ = omega arith
resolve-max_attempts_positive (on q) off g = omega arith
resolve-max_attempts_positive (on q) unset off = omega arith
resolve-max_attempts_positive (on q) unset _ = omega arith
resolve-max_attempts_positive (on q) (on p) _ = omega arith
