-- ===== src/Gateway/Permission.antt =====
-- packages/core/src/tools/permissionModes.ts. The patterns of dangerous shell commands are one
-- test on the command, a parameter of the classifier: their regular expressions are not modelled.
pub mod Laws
use kross.Base.{
  text_eq, Bool, false, ◌||◌, Option, none, some, List, [], ◌∷◌, String, if◌then◌else◌,
}
use kross.Base.Json.{Value, obj, text_field}
use kross.Gateway.Types.{
  Risk, is_risk, read, write, execute, network, Decision, allow, ask, deny, AccessScope, workspace,
  system, PolicyContext,
}
use kross.Gateway.Retry.{is_one_of}

pub data PermissionMode : Type 0 where
  default classifier auto : PermissionMode

unfoldable permission_mode_access_scope : PermissionMode → AccessScope
permission_mode_access_scope auto = system
permission_mode_access_scope _ = workspace

abbrev risk_text : Risk → String
risk_text read = "read"
risk_text write = "write"
risk_text execute = "execute"
risk_text network = "network"

-- The reasons are left out where the source builds them from a template.
pub default_manual_policy : PolicyContext → Decision
default_manual_policy context =
    if is_risk context.tool.risk read
    then record { action = allow; reason = some "default: workspace read-only" }
    else record { action = ask; reason = some (risk_text context.tool.risk) }

abbrev read_like_tools : List String
read_like_tools =
    "Read" ∷ "Glob" ∷ "Grep" ∷ "Rg" ∷ "List" ∷ "Stat" ∷ "Task" ∷ "TodoWrite" ∷ "TodoRead"
    ∷ "fs.read" ∷ []

abbrev write_like_tools : List String
write_like_tools =
    "Write" ∷ "Edit" ∷ "Delete" ∷ "Move" ∷ "fs.write" ∷ "fs.edit" ∷ "fs.delete" ∷ "fs.move" ∷ []

unfoldable extract_command : Value → Option String
extract_command (obj fs) = elim (text_field "command" (obj fs)) [
  | some command ↦ some command
  | none ↦ text_field "cmd" (obj fs)
]
extract_command _ = none

module _ (is_dangerous_bash : String → Bool) where
  -- `command && isDangerousBash(command)`: an empty text counts as no command.
  pub has_dangerous_command : Value → Bool
  has_dangerous_command input = elim (extract_command input) [
    | none ↦ false
    | some command ↦ if text_eq command "" then false else is_dangerous_bash command
  ]

  pub classify_tool_call : PolicyContext → Decision
  unfolding has_dangerous_command is_one_of
  classify_tool_call context =
      if is_risk context.tool.risk read
      then record { action = allow; reason = some "classifier: read-like tool" }
      else if text_eq context.tool.name "Bash" || is_risk context.tool.risk execute
      then (if has_dangerous_command context.input
          then record { action = deny; reason = some "classifier: blocked dangerous shell command" }
          else record {
            action = ask;
            reason = some "classifier: shell command needs confirmation";
          })
      else if is_risk context.tool.risk network
      then record { action = ask; reason = some "classifier: network tool needs confirmation" }
      else if is_risk context.tool.risk write || is_one_of write_like_tools context.tool.name
      then record { action = allow; reason = some "classifier: workspace-scoped write" }
      else if is_one_of read_like_tools context.tool.name
      then record { action = allow; reason = some "classifier: read-like tool" }
      else record { action = ask; reason = some "classifier: unfamiliar tool needs confirmation" }

  pub create_approval_policy : PermissionMode → PolicyContext → Decision
  create_approval_policy auto context = record { action = allow; reason = none }
  create_approval_policy classifier context = classify_tool_call context
  create_approval_policy default context = default_manual_policy context
