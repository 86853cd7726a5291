-- ===== src/Gateway/Registry.antt =====
-- The tool registry of packages/core/src/tools/toolGateway.ts: `register`, `replaceCategory`,
-- `definitionsByCategory` and `listTools`. A definition's `execute` is the environment of a call.
pub mod Laws
pub mod Extends
use text.Mathlib.Text.{starts_with}
use kross.Base.{
  Bool, true, false, Option, none, some, List, [], ◌∷◌, String, if◌then◌else◌, filter_by, some_of,
  String-discrete, not, map, text_eq,
}
use kross.Base.Maps.{Map, get, set, values}
use kross.Base.Json.{Value}
use kross.Gateway.Types.{Risk, Metadata}
use kross.Gateway.Retry.{Setting}

pub record Definition : Type 0 where
  pub name : String
  pub description : String
  pub risk : Risk
  pub category : Option String
  -- `inputSchema.parse`; `none` is a `ZodError`.
  pub parse : Value → Option Value
  pub resolve_risk : Option (Value → Risk)
  pub redact : Option (Value → Value)
  pub retry : Setting
  pub enabled : Option (Option String → Bool)

abbrev pub Tools : Type 0
Tools = Map String Definition

-- `Tool already registered: name` and `Duplicate replacement tool: name`.
pub data Error : Type 0 where
  already_registered duplicate_replacement : String → Error

pub data Result : Type 0 where
  ok : Tools → Result
  err : Error → Result

pub register : Definition → Tools → Result
register definition tools = elim (get String-discrete definition.name tools) [
  | some old ↦ err (already_registered definition.name)
  | none ↦ ok (set String-discrete definition.name definition tools)
]

-- `definition.category?.startsWith(prefix)`, where `undefined` is falsy.
unfoldable pub in_category : String → Definition → Bool
in_category prefix definition = elim definition.category [
  | none ↦ false
  | some category ↦ starts_with category prefix
]

-- The entry's key belongs to the replaced namespace.
abbrev is_foreign : String → Option Definition → Bool
is_foreign prefix none = false
is_foreign prefix (some existing) = not (in_category prefix existing)

-- The first loop of `replaceCategory`, with the names that came before.
unfoldable pub check_replacement : String → Tools → List String → List Definition → Option Error
check_replacement prefix tools incoming [] = none
check_replacement prefix tools incoming (d ∷ ds) =
    if some_of (text_eq d.name) incoming
    then some (duplicate_replacement d.name)
    else if is_foreign prefix (get String-discrete d.name tools)
    then some (already_registered d.name)
    else check_replacement prefix tools (d.name ∷ incoming) ds

-- The second loop: the deletion of the namespace's entries.
unfoldable pub drop_category : String → Tools → Tools
drop_category prefix [] = []
drop_category prefix ((name, d) ∷ tools) = elim (in_category prefix d) [
  | true ↦ drop_category prefix tools
  | false ↦ (name, d) ∷ drop_category prefix tools
]

-- The third loop.
unfoldable pub set_all : List Definition → Tools → Tools
set_all [] tools = tools
set_all (d ∷ ds) tools = set_all ds (set String-discrete d.name d tools)

unfoldable pub replace_category : String → List Definition → Tools → Result
replace_category prefix definitions tools = elim (check_replacement prefix tools [] definitions) [
  | some e ↦ err e
  | none ↦ ok (set_all definitions (drop_category prefix tools))
]

pub definitions_by_category : String → Tools → List Definition
definitions_by_category prefix tools = filter_by (in_category prefix) (values tools)

-- `tool.enabled?.(context) ?? true`.
abbrev is_enabled : Option String → Definition → Bool
is_enabled mode d = elim d.enabled [ none ↦ true | some enabled ↦ enabled mode ]

unfoldable pub to_metadata : Definition → Risk → Metadata
to_metadata d risk = record {
  name = d.name;
  description = d.description;
  risk = risk;
  category = d.category;
}

unfoldable list_tools : Option String → Tools → List Metadata
unfolding to_metadata
list_tools mode tools = map (λ d. to_metadata d d.risk) (filter_by (is_enabled mode) (values tools))
