-- ===== src/Session/Stall.antt =====
-- packages/core/src/runtime/toolLoopStallDetector.ts. The fingerprint of a batch and its results, a
-- SHA-256 text, is an argument of `observe`.
pub mod Repeats
use kross.Base.{
  ℕ, ◌+◌, max, Bool, true, false, Option, none, some, String, if◌then◌else◌, leb, text_eq,
}

pub data StallState : Type 0 where
  progress repeated recover stalled : StallState

pub record Observation : Type 0 where
  pub state : StallState
  pub repeated_count : ℕ

pub record Detector : Type 0 where
  pub repeat_threshold : ℕ
  pub previous_fingerprint : Option String
  pub repeated_count : ℕ
  pub recovery_issued : Bool

abbrev default_stall_repeat_threshold : ℕ
default_stall_repeat_threshold = 2

abbrev or_default : Option ℕ → ℕ
or_default none = default_stall_repeat_threshold
or_default (some n) = n

unfoldable pub new_detector : Option ℕ → Detector
new_detector threshold = record {
  repeat_threshold = max 1 (or_default threshold);
  previous_fingerprint = none;
  repeated_count = 0;
  recovery_issued = false;
}

abbrev pub is_previous : Option String → String → Bool
is_previous none fingerprint = false
is_previous (some previous) fingerprint = text_eq previous fingerprint

unfoldable pub observe : String → Detector → Observation × Detector
observe fingerprint d =
    if is_previous d.previous_fingerprint fingerprint
    then (if d.recovery_issued
        then (
          record { state = stalled; repeated_count = d.repeated_count + 1 },
          record d { repeated_count = d.repeated_count + 1 },
        )
        else if leb d.repeat_threshold (d.repeated_count + 1)
        then (
          record { state = recover; repeated_count = d.repeated_count + 1 },
          record d { repeated_count = d.repeated_count + 1; recovery_issued = true },
        )
        else (
          record { state = repeated; repeated_count = d.repeated_count + 1 },
          record d { repeated_count = d.repeated_count + 1 },
        ))
    else (
      record { state = progress; repeated_count = 0 },
      record d {
        previous_fingerprint = some fingerprint;
        repeated_count = 0;
        recovery_issued = false;
      },
    )
