-- ===== src/Gateway/Schedule/Reads.antt =====
-- The calls that the scheduler of packages/core/src/runtime/toolLoopShared.ts runs together.
use kross.Base.{
  if◌then◌else◌, ◌&&◌, ℕ, String, ◌≡◌, refl, inl, true, false, some, true_of_false, String-discrete,
  Bool, Option-cases, inr, arith,
}
use kross.Base.Maps.{Map, get}
use kross.Base.Json.{Value}
use kross.Gateway.Types.{
  Risk, is_risk, Action, Metadata, read, write, execute, network, allow, ask, deny,
}
use kross.Gateway.Registry.{Definition, to_metadata}
use kross.Gateway.Call.{Attempt, Gateway, resolved_risk, decide, call, inspect_call}
use kross.Gateway.Call.Approval.{Starts, Starts-iff}
use kross.Gateway.Schedule.{
  ToolCall, is_allow, judge, consider, call_input, joins, stays, Candidate,
}

is_allow-allow : (a : Action) → is_allow a ≡ true → a ≡ allow
is_allow-allow allow h = refl
is_allow-allow ask h = true_of_false h
is_allow-allow deny h = true_of_false h

is_risk-read : (r : Risk) → is_risk r read ≡ true → r ≡ read
is_risk-read read h = refl
is_risk-read write h = true_of_false h
is_risk-read execute h = true_of_false h
is_risk-read network h = true_of_false h

-- What lets a call join a batch: a registered tool that accepts the input, reads, and is allowed.
abbrev IsAllowedRead : Gateway → ToolCall → Type 0
IsAllowedRead g c =
    (d : Definition) × (parsed : Value) × (get String-discrete c.name g.tools ≡ some d)
    × (d.parse c.input ≡ some parsed)
    × ((decide g d parsed).action ≡ allow)
    × (resolved_risk d parsed ≡ read)

joins_tests : (a b : Bool) → (if a && b then joins else stays) ≡ joins → (a ≡ true) × (b ≡ true)
joins_tests true true h = (refl, refl)
joins_tests true false h = cc
joins_tests false b h = cc

joins_of : (b : Bool) (k : Candidate) → (if b then k else stays) ≡ joins → k ≡ joins
joins_of true k h = h
joins_of false k h = cc

judge-joins :
    (g : Gateway) (c : ToolCall) → judge (inspect_call g c.name c.input) ≡ joins → IsAllowedRead g c
unfolding judge inspect_call to_metadata
judge-joins g c h = elim (Option-cases (get String-discrete c.name g.tools)) [
  | inl e ↦ absurd (ground (arith, e, h))
  | inr (d, e) ↦ elim (Option-cases (d.parse c.input)) [
    | inl k ↦ absurd (ground (arith, e, k, h))
    | inr (parsed, k) ↦
        let q = joins_tests _ _ (rw (e, k, inspect_call, judge) at h) in
        (d, parsed, e, k, is_allow-allow _ q.0, is_risk-read _ q.1)
  ]
]

-- A call joins a batch of parallel calls only if its tool is registered and accepts the input, its
-- resolved risk is `read`, and the policy allows it without a question.
consider-joins :
    (g : Gateway) (metadata : Map String Metadata) (c : ToolCall)
    → consider g metadata c ≡ joins
    → IsAllowedRead g c
unfolding consider
consider-joins g metadata c h = judge-joins g c (joins_of _ _ h)

-- If the scheduler lets a tool call join a parallel batch, then the gateway call that it makes,
-- with no approval and a quiet signal, starts the tool: it is never stopped by the approval.
pub joins-Starts :
    (g : Gateway) (metadata : Map String Metadata) (world : ℕ → Attempt) (c : ToolCall)
    → consider g metadata c ≡ joins
    → Starts (call g world (call_input false c)).0
unfolding call_input
joins-Starts g metadata world c h =
    let (d, parsed, registered, accepted, allowed, r) = consider-joins g metadata c h in
    (Starts-iff g world (call_input false c) d parsed
        (record { running = refl; registered = registered; accepted = accepted })).1
      (inl allowed)
