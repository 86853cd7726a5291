-- ===== src/Conductor/Verification.antt =====
-- `aggregateConductorVerification` of packages/core/src/runtime/conductorOrchestration.ts. Which
-- changed files require a verification is a parameter, and an evidence line's label and text are
-- joined by one.
pub mod Verdict
use kross.Base.{
  Bool, true, false, not, ◌&&◌, ◌||◌, Option, none, some, List, [], ◌∷◌, ◌++◌, String,
  if◌then◌else◌, String-discrete, text_eq, some_of, filter_by,
}
use kross.Base.Maps.{Map, get, set}
use kross.Conductor.Outcome.{
  VerificationStatus, passed, failed, not_run, not_needed, VerificationReport, TaskOutcome,
  ValidationOutcome,
}

abbrev pub is_status : VerificationStatus → VerificationStatus → Bool
is_status passed passed = true
is_status failed failed = true
is_status not_run not_run = true
is_status not_needed not_needed = true
is_status _ _ = false

abbrev is_empty : List String → Bool
is_empty [] = true
is_empty (x ∷ xs) = false

-- `repoId ?? '__primary__'`.
abbrev root_key : Option String → String
root_key none = "__primary__"
root_key (some id) = id

abbrev root_label : Option String → String
root_label none = "primary"
root_label (some id) = id

unfoldable pub index_validations :
    List ValidationOutcome → Map String ValidationOutcome → Map String ValidationOutcome
index_validations [] m = m
index_validations (v ∷ vs) m = index_validations vs (set String-discrete (root_key v.repo_id) v m)

-- `[...new Set(items)]`, behind the items seen.
unique : List String → List String → List String
unique seen [] = []
unique seen (x ∷ xs) = elim (some_of (text_eq x) seen) [
  | true ↦ unique seen xs
  | false ↦ x ∷ unique (x ∷ seen) xs
]

abbrev commands_of : List TaskOutcome → List String
commands_of [] = []
commands_of (o ∷ os) = o.verification.commands ++ commands_of os

abbrev validation_commands : List ValidationOutcome → List String
validation_commands [] = []
validation_commands (v ∷ vs) = v.verification.commands ++ validation_commands vs

module _ (requires_verification : List String → Bool) (labelled : String → String → String) where
  unfoldable pub is_relevant : TaskOutcome → Bool
  is_relevant o =
      requires_verification o.changed_files
      || is_status o.verification.status passed
      || is_status o.verification.status failed
      || (is_empty o.changed_files && is_status o.verification.status not_run)

  abbrev label_all : String → List String → List String
  label_all label [] = []
  label_all label (x ∷ xs) = labelled label x ∷ label_all label xs

  abbrev task_evidence : List TaskOutcome → List String
  task_evidence [] = []
  task_evidence (o ∷ os) = label_all o.task_id o.verification.evidence ++ task_evidence os

  abbrev validation_evidence : List ValidationOutcome → List String
  validation_evidence [] = []
  validation_evidence (v ∷ vs) =
      label_all (root_label v.repo_id) v.verification.evidence ++ validation_evidence vs

  abbrev or_own : VerificationReport → Option ValidationOutcome → VerificationReport
  or_own own none = own
  or_own own (some v) = v.verification

  -- Both branches of the source's last test give the validation's report, if there is one.
  unfoldable pub effective_verification :
      Map String ValidationOutcome → TaskOutcome → VerificationReport
  effective_verification by_root o =
      if not (requires_verification o.changed_files)
      then o.verification
      else or_own o.verification (get String-discrete (root_key o.repo_id) by_root)

  unfoldable pub has_status :
      VerificationStatus → Map String ValidationOutcome → List TaskOutcome → Bool
  unfolding effective_verification
  has_status status by_root os =
      some_of (λ o. is_status (effective_verification by_root o).status status) os

  unfoldable pub has_unverified_mutation : Map String ValidationOutcome → List TaskOutcome → Bool
  unfolding effective_verification
  has_unverified_mutation by_root os =
      some_of
        (λ o.
          requires_verification o.changed_files
          && not (is_status (effective_verification by_root o).status passed))
        os

  unfoldable pub verdict :
      Map String ValidationOutcome
      → List TaskOutcome
      → List String
      → List String
      → VerificationReport
  unfolding has_status has_unverified_mutation
  verdict by_root relevant commands evidence =
      if has_status failed by_root relevant
      then record {
        status = failed;
        commands = commands;
        evidence = evidence;
        reason = some "At least one worker reported failed verification.";
      }
      else if has_unverified_mutation by_root relevant || has_status not_run by_root relevant
      then record {
        status = not_run;
        commands = commands;
        evidence = evidence;
        reason = some "At least one worker change lacks passing verification evidence.";
      }
      else record { status = passed; commands = commands; evidence = evidence; reason = none }

  unfoldable pub aggregate_relevant : List TaskOutcome → List ValidationOutcome → VerificationReport
  unfolding index_validations unique verdict
  aggregate_relevant [] validations = record {
    status = not_needed;
    commands = [];
    evidence = [];
    reason = some "No worker workspace changes or verification commands were observed.";
  }
  aggregate_relevant (o ∷ os) validations =
      verdict (index_validations validations []) (o ∷ os)
        (unique [] (commands_of (o ∷ os) ++ validation_commands validations))
        (task_evidence (o ∷ os) ++ validation_evidence validations)

  unfoldable pub aggregate_conductor_verification :
      List TaskOutcome → List ValidationOutcome → VerificationReport
  unfolding is_relevant aggregate_relevant
  aggregate_conductor_verification outcomes validations =
      aggregate_relevant (filter_by is_relevant outcomes) validations
