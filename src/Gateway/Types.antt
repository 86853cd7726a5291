-- ===== src/Gateway/Types.antt =====
-- The types of packages/core/src/tools/toolGateway.ts that its parts share.
use kross.Base.{Option, String, Bool, ◌&&◌, true, false, text_eq}
use kross.Base.Json.{Value}

pub data Risk : Type 0 where
  read write execute network : Risk

-- `risk === other`.
abbrev pub is_risk : Risk → Risk → Bool
is_risk read read = true
is_risk write write = true
is_risk execute execute = true
is_risk network network = true
is_risk _ _ = false

pub data Action : Type 0 where
  allow ask deny : Action

pub data AccessScope : Type 0 where
  workspace system : AccessScope

pub record Decision : Type 0 where
  pub action : Action
  pub reason : Option String

pub record Metadata : Type 0 where
  pub name : String
  pub description : String
  pub risk : Risk
  pub category : Option String

pub record PolicyContext : Type 0 where
  pub tool : Metadata
  pub input : Value

-- A thrown JavaScript value, as far as the code inspects it: whether it is an `Error`, its `name`,
-- whether it is a `ToolBoundaryError`, `String(error.code)` if it is an object with a `code`, and
-- the text of `errorMessage`.
pub record Thrown : Type 0 where
  pub is_error : Bool
  pub name : String
  pub is_boundary : Bool
  pub code : Option String
  pub message : String

unfoldable pub is_error_named : Thrown → String → Bool
is_error_named e name = e.is_error && text_eq e.name name
