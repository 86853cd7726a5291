-- ===== src/Gateway/Permission/Laws.antt =====
-- The decisions of packages/core/src/tools/permissionModes.ts, mode by mode.
use kross.Base.{text_eq_iff, Bool, ◌≡◌, refl, ◌≢◌, ◌⊎◌, ◌↔◌, arith, String}
use kross.Gateway.Types.{read, write, allow, PolicyContext}
use kross.Gateway.Permission.{
  PermissionMode, default, classifier, auto, create_approval_policy, classify_tool_call,
  default_manual_policy,
}

-- What a mode lets through unasked: everything in `auto`, reads in `default`, and in `classifier`
-- reads and those writes that do not go by the name of the shell tool.
abbrev pub LetThrough : PermissionMode → PolicyContext → Type 0
LetThrough auto c = Unit
LetThrough default c = c.tool.risk ≡ read
LetThrough classifier c = (c.tool.risk ≡ read) ⊎ ((c.tool.risk ≡ write) × (c.tool.name ≢ "Bash"))

module _ (is_dangerous_bash : String → Bool) where
  -- In every permission mode a call is allowed without a question if and only if the mode is
  -- `auto`, or it is `default` or `classifier` and the call is a read, or it is `classifier` and
  -- the call is a write by a tool that is not named `Bash`.
  pub allow-iff-LetThrough :
      (mode : PermissionMode) (c : PolicyContext)
      → ((create_approval_policy is_dangerous_bash mode c).action ≡ allow) ↔ LetThrough mode c
  unfolding create_approval_policy classify_tool_call default_manual_policy
  allow-iff-LetThrough auto c = (λ h. tt, λ h. refl)
  allow-iff-LetThrough default c = (
    λ h. ground (arith, text_eq_iff c.tool.name "Bash"),
    λ h. ground (arith, text_eq_iff c.tool.name "Bash"),
  )
  allow-iff-LetThrough classifier c = (
    λ h. ground (arith, text_eq_iff c.tool.name "Bash"),
    λ h. ground (arith, text_eq_iff c.tool.name "Bash"),
  )
