-- ===== src/Tests/GatewayTools.antt =====
-- A registry of packages/core/src/tools/toolGateway.ts with a namespace that is replaced, and a
-- schedule of three calls.
use kross.Base.{
  ℕ, String, ◌≡◌, refl, true, false, Option, none, some, List, [], ◌∷◌, ◌++◌, map, true_of_false,
  String-discrete, All, if◌then◌else◌, text_eq, text_eq_iff,
}
use kross.Base.Maps.{Map, get, set}
use kross.Base.Json.{str}
use kross.Gateway.Types.{Metadata, read, allow}
use kross.Gateway.Retry.{unset}
use kross.Gateway.Registry.{
  Definition, Tools, register, in_category, check_replacement, drop_category, set_all,
  replace_category, definitions_by_category, to_metadata, ok,
}
use kross.Gateway.Registry.Extends.{Extends, ExtendsOutside, register-replace-Extends}
use kross.Gateway.Registry.Laws.{
  IsRegistry, entries_outside, entry, replace_category-append, InCategory,
  definitions_by_category-replace,
}
use kross.Gateway.Call.{Attempt, Gateway, resolved_risk, decide, call, inspect_call, returned}
use kross.Gateway.Call.Approval.{Starts}
use kross.Gateway.Schedule.{
  ToolCall, is_independent_read, Candidate, judge, consider, call_input,
  execute_scheduled_tool_calls, joins, stays, content, answers,
}
use kross.Gateway.Schedule.Order.{InOrder, execute_scheduled_tool_calls-InOrder}
use kross.Gateway.Schedule.Complete.{reply_to, NoThrow, execute_scheduled_tool_calls_complete}
use kross.Gateway.Schedule.Reads.{joins-Starts}

abbrev plain : String → Option String → Definition
plain name category = record {
  name = name;
  description = "";
  risk = read;
  category = category;
  parse = some;
  resolve_risk = none;
  redact = none;
  retry = unset;
  enabled = none;
}

abbrev two_tools : Tools
two_tools = ("Read", plain "Read" none) ∷ ("old", plain "old" (some "mcp:docs")) ∷ []

abbrev new_tools : List Definition
new_tools = plain "search" (some "mcp:docs") ∷ []

two_tools-IsRegistry : IsRegistry two_tools
two_tools-IsRegistry = record {
  named = (refl, (refl, tt));
  distinct = (((λ e. true_of_false ((text_eq_iff "old" "Read").1 e)), tt), (tt, tt));
}

abbrev replaced : Tools
replaced = ("Read", plain "Read" none) ∷ ("search", plain "search" (some "mcp:docs")) ∷ []

replaced-ok : replace_category "mcp:" new_tools two_tools ≡ ok replaced
unfolding replace_category check_replacement drop_category set_all in_category get set
    String-discrete
replaced-ok = refl

replace_category-append_example : replaced ≡ entries_outside "mcp:" two_tools ++ map entry new_tools
replace_category-append_example =
    replace_category-append "mcp:" new_tools two_tools two_tools-IsRegistry replaced-ok

register-replace-Extends_example :
    Extends two_tools (register (plain "Grep" none) two_tools)
    × ExtendsOutside "mcp:" two_tools (replace_category "mcp:" new_tools two_tools)
register-replace-Extends_example =
    register-replace-Extends "mcp:" (plain "Grep" none) new_tools two_tools two_tools-IsRegistry

new_tools-InCategory : All (InCategory "mcp:") new_tools
unfolding in_category
new_tools-InCategory = (refl, tt)

definitions_by_category-replace_example : definitions_by_category "mcp:" replaced ≡ new_tools
definitions_by_category-replace_example =
    definitions_by_category-replace "mcp:" new_tools two_tools two_tools-IsRegistry
      new_tools-InCategory replaced-ok

abbrev tool_gateway : Gateway
tool_gateway = record {
  tools = two_tools;
  approval_policy = λ c. record { action = allow; reason = none };
  default_retry = unset;
}

abbrev listed : Map String Metadata
listed = ("Read", to_metadata (plain "Read" none) read) ∷ []

abbrev read_a : ToolCall
read_a = record { id = "1"; name = "Read"; input = str "a.txt" }

abbrev read_b : ToolCall
read_b = record { id = "2"; name = "Read"; input = str "b.txt" }

abbrev old_call : ToolCall
old_call = record { id = "3"; name = "old"; input = str "q" }

abbrev attempt_once : ℕ → Attempt
attempt_once n = record {
  aborted_before = false;
  execution = returned (record { status = none; content = "text"; recovery = "" });
  aborted_after = false;
  aborted_in_sleep = false;
}

read_a-joins : consider tool_gateway listed read_a ≡ joins
unfolding consider judge is_independent_read inspect_call resolved_risk decide to_metadata get
    String-discrete
read_a-joins = refl

joins-Starts_example : Starts (call tool_gateway attempt_once (call_input false read_a)).0
joins-Starts_example = joins-Starts tool_gateway listed attempt_once read_a read_a-joins

execute_scheduled_tool_calls-InOrder_example :
    InOrder (consider tool_gateway listed) 2 (read_a ∷ read_b ∷ old_call ∷ []) (
      execute_scheduled_tool_calls
        (consider tool_gateway listed)
        (λ c. content c.id)
        2
        (λ n. false)
        (read_a ∷ read_b ∷ old_call ∷ []))
execute_scheduled_tool_calls-InOrder_example =
    execute_scheduled_tool_calls-InOrder (consider tool_gateway listed) (λ c. content c.id) 2
      (λ n. false) (read_a ∷ read_b ∷ old_call ∷ [])

abbrev reads_join : ToolCall → Candidate
reads_join c = if text_eq c.name "Read" then joins else stays

reads_join-NoThrow : (c : ToolCall) → NoThrow (reads_join c)
reads_join-NoThrow c = elim (text_eq c.name "Read") as (λ b. NoThrow (if b then joins else stays)) [
  | true ↦ tt
  | false ↦ tt
]

execute_scheduled_tool_calls_complete_example :
    (execute_scheduled_tool_calls reads_join
      (λ c. content c.id)
      2
      (λ n. false)
      (read_a ∷ read_b ∷ old_call ∷ [])).result
    ≡ answers (map (reply_to (λ c. c.id)) (read_a ∷ read_b ∷ old_call ∷ []))
execute_scheduled_tool_calls_complete_example =
    execute_scheduled_tool_calls_complete reads_join reads_join-NoThrow (λ c. c.id) 2
      (read_a ∷ read_b ∷ old_call ∷ [])
