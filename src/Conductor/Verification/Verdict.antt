-- ===== src/Conductor/Verification/Verdict.antt =====
-- The status that `aggregateConductorVerification` of
-- packages/core/src/runtime/conductorOrchestration.ts gives, and the outcomes.
use kross.Base.{◌≡◌, Bool, false, not, ◌&&◌, List, [], String}
use kross.Conductor.Outcome.{
  passed, failed, not_run, VerificationReport, TaskOutcome, ValidationOutcome,
}
use kross.Conductor.Verification.{is_status, index_validations, effective_verification}

module _ (requires_verification : List String → Bool) (labelled : String → String → String) where
  -- The report that counts for an outcome.
  abbrev effective : List ValidationOutcome → TaskOutcome → VerificationReport
  effective validations o =
      effective_verification requires_verification labelled (index_validations validations []) o

  -- What the last test of the verdict asks of one outcome.
  abbrev Clears : List ValidationOutcome → TaskOutcome → Type 0
  Clears validations o =
      (is_status (effective validations o).status failed ≡ false)
      × ((requires_verification o.changed_files
            && not (is_status (effective validations o).status passed))
          ≡ false)
      × (is_status (effective validations o).status not_run ≡ false)

  -- The report that counts for an outcome says `passed`.
  abbrev pub Passes : List ValidationOutcome → TaskOutcome → Type 0
  Passes validations o = (effective validations o).status ≡ passed
