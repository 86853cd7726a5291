-- ===== src/Tests/GatewayCalls.antt =====
-- Calls of packages/core/src/tools/toolGateway.ts with one tool, whose first attempt times out.
use kross.Base.Maps.{get}
use kross.Base.{
  String-discrete, ℕ, zero, suc, ◌≡◌, refl, ◌↔◌, ◌⊎◌, true, false, none, some, [], ◌∷◌, arith,
  text_eq,
}
use kross.Gateway.Types.{PolicyContext, Thrown, read, execute, allow, ask}
use kross.Gateway.Retry.{ResolvedPolicy, unset}
use kross.Gateway.Registry.{Definition}
use kross.Gateway.Call.{Attempt, attempts, CallInput, Gateway, decide, call, returned, threw}
use kross.Gateway.Call.Approval.{Starts, Starts-iff, call-EndsOnce}
use kross.Gateway.Call.Attempts.{EndsOnce}
use kross.Gateway.Call.Closes.{Closes, call-Closes}
use kross.Gateway.Call.Observed.{Reported, attempts-start-Reported}
use kross.Gateway.Permission.{create_approval_policy, default, classifier}
use kross.Gateway.Permission.Laws.{LetThrough, allow-iff-LetThrough}
use kross.Base.Json.{str, obj, no_fields, field}

abbrev read_tool : Definition
read_tool = record {
  name = "Read";
  description = "Reads a file";
  risk = read;
  category = none;
  parse = some;
  resolve_risk = none;
  redact = none;
  retry = unset;
  enabled = none;
}

abbrev gateway : Gateway
gateway = record {
  tools = ("Read", read_tool) ∷ [];
  approval_policy = create_approval_policy (text_eq "sudo reboot") default;
  default_retry = unset;
}

abbrev time_out : Thrown
time_out = record {
  is_error = true;
  name = "ToolTimeoutError";
  is_boundary = false;
  code = none;
  message = "timed out";
}

-- The first attempt times out, the second one returns.
abbrev flaky : ℕ → Attempt
flaky (suc zero) = record {
  aborted_before = false;
  execution = threw time_out;
  aborted_after = false;
  aborted_in_sleep = false;
}
flaky _ = record {
  aborted_before = false;
  execution = returned (record { status = none; content = "text"; recovery = "" });
  aborted_after = false;
  aborted_in_sleep = false;
}

flaky_quiet : (n : ℕ) → (flaky n).aborted_in_sleep ≡ false
flaky_quiet zero = refl
flaky_quiet (suc zero) = refl
flaky_quiet (suc (suc n)) = refl

-- As `flaky`, but the user aborts in the pause behind the time-out.
abbrev aborting : ℕ → Attempt
aborting n = record (flaky n) { aborted_in_sleep = true }

abbrev read_call : CallInput
read_call = record {
  name = "Read";
  input = str "a.txt";
  approved = false;
  return_errors = true;
  retry_setting = unset;
  aborted_at_entry = false;
}

abbrev two_attempts : ResolvedPolicy
two_attempts = record {
  max_attempts = 2;
  backoff_ms = 200;
  backoff_multiplier = 2;
  retry_on = λ e attempt. true;
}

call-EndsOnce_example :
    ((call gateway flaky read_call).0 ≡ []) ⊎ EndsOnce (call gateway flaky read_call).0
call-EndsOnce_example = call-EndsOnce gateway flaky read_call flaky_quiet

Starts-iff_example : Starts (call gateway flaky read_call).0 ↔ (
    ((decide gateway read_tool (str "a.txt")).action ≡ allow)
    ⊎ (((decide gateway read_tool (str "a.txt")).action ≡ ask) × (read_call.approved ≡ true)))
unfolding get String-discrete
Starts-iff_example =
    Starts-iff gateway flaky read_call read_tool (str "a.txt")
      (record { running = refl; registered = refl; accepted = refl })

attempts-start-Reported_example :
    Reported two_attempts true flaky (attempts two_attempts true flaky 2 1 []).1
attempts-start-Reported_example = attempts-start-Reported two_attempts true flaky (ground arith)

call-Closes_example :
    ((call gateway aborting read_call).0 ≡ []) ⊎ Closes aborting (call gateway aborting read_call)
call-Closes_example = call-Closes gateway aborting read_call

abbrev reboot : PolicyContext
reboot = record {
  tool = record { name = "Bash"; description = "Runs a command"; risk = execute; category = none };
  input = obj (field "command" (str "sudo reboot") no_fields);
}

allow-iff-LetThrough_example :
    ((create_approval_policy (text_eq "sudo reboot") classifier reboot).action ≡ allow)
    ↔ LetThrough classifier reboot
allow-iff-LetThrough_example = allow-iff-LetThrough (text_eq "sudo reboot") classifier reboot
