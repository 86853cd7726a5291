-- ===== src/Session/Stall/Repeats.antt =====
-- Repeats of one fingerprint in packages/core/src/runtime/toolLoopStallDetector.ts.
use kross.Base.{
  ℕ, zero, suc, ◌+◌, ◌≤◌, ◌≡◌, refl, false, some, String, arith, if◌then◌else◌, ltb, leb, ◌==◌,
  text_eq_iff, ap, ◌∙◌,
}
use kross.Session.Stall.{
  StallState, progress, repeated, recover, stalled, Detector, observe, is_previous,
}

-- The detector after `n` further observations of the fingerprint.
pub repeat_observe : ℕ → String → Detector → Detector
repeat_observe zero fingerprint d = d
repeat_observe (suc n) fingerprint d = (observe fingerprint (repeat_observe n fingerprint d)).1

-- The answer to the n-th repeat.
abbrev pub answer_to_repeat : ℕ → ℕ → StallState
answer_to_repeat threshold n =
    if ltb n threshold then repeated else if n == threshold then recover else stalled

abbrev counting : Detector → String → ℕ → Detector
counting d fingerprint n = record {
  repeat_threshold = d.repeat_threshold;
  previous_fingerprint = some fingerprint;
  repeated_count = n;
  recovery_issued = leb d.repeat_threshold n;
}

observe_first :
    (fingerprint : String) (d : Detector)
    → 1 ≤ d.repeat_threshold
    → is_previous d.previous_fingerprint fingerprint ≡ false
    → observe fingerprint d
      ≡ (record { state = progress; repeated_count = 0 }, counting d fingerprint 0)
unfolding observe
observe_first fingerprint d h p = ground arith

observe-counting :
    (fingerprint : String) (d : Detector) (n : ℕ)
    → observe fingerprint (counting d fingerprint n) ≡ (
      record { state = answer_to_repeat d.repeat_threshold (n + 1); repeated_count = n + 1 },
      counting d fingerprint (n + 1),
    )
unfolding observe
observe-counting fingerprint d n = ground (arith, text_eq_iff fingerprint fingerprint)

repeat_observe-counting :
    (fingerprint : String) (d : Detector) (n : ℕ)
    → repeat_observe n fingerprint (counting d fingerprint 0) ≡ counting d fingerprint n
unfolding repeat_observe
repeat_observe-counting fingerprint d zero = refl
repeat_observe-counting fingerprint d (suc n) =
    ap (λ e. (observe fingerprint e).1) (repeat_observe-counting fingerprint d n)
    ∙ ap (λ o. o.1) (observe-counting fingerprint d n)
    ∙ ap (counting d fingerprint) (omega arith)

-- If the threshold is at least 1 and a fingerprint differs from the last one, it is answered
-- `progress`; its n-th repeat in a row is answered `repeated` below the threshold, `recover` at the
-- threshold and `stalled` above it, each with the number n.
pub observe_repeats :
    (fingerprint : String) (d : Detector) (n : ℕ)
    → 1 ≤ d.repeat_threshold
    → is_previous d.previous_fingerprint fingerprint ≡ false
    → ((observe fingerprint d).0 ≡ record { state = progress; repeated_count = 0 })
      × ((observe fingerprint (repeat_observe n fingerprint (observe fingerprint d).1)).0
          ≡ record { state = answer_to_repeat d.repeat_threshold (n + 1); repeated_count = n + 1 })
observe_repeats fingerprint d n h p = (
  ap (λ o. o.0) (observe_first fingerprint d h p),
  ap (λ o. (observe fingerprint (repeat_observe n fingerprint o.1)).0)
        (observe_first fingerprint d h p)
      ∙ ap (λ e. (observe fingerprint e).0) (repeat_observe-counting fingerprint d n)
      ∙ ap (λ o. o.0) (observe-counting fingerprint d n),
)
