-- ===== src/Conductor/Outcome.antt =====
-- The outcomes of workers and validators in packages/core/src/runtime/conductorOrchestration.ts.
use kross.Base.{ℕ, Bool, Option, List, String}

pub data VerificationStatus : Type 0 where
  passed failed not_run not_needed : VerificationStatus

pub record VerificationReport : Type 0 where
  pub status : VerificationStatus
  pub commands : List String
  pub evidence : List String
  pub reason : Option String

pub data Recovery : Type 0 where
  retry replan : Recovery

pub record TaskOutcome : Type 0 where
  pub task_id : String
  pub title : String
  pub repo_id : Option String
  pub status : String
  pub summary : String
  pub changed_files : List String
  pub evidence : List String
  pub risks : List String
  pub needs_review : List String
  pub verification : VerificationReport
  pub attempts : Option ℕ
  pub recovery : Option Recovery
  pub execution_incomplete : Option Bool
  pub retry_safe : Option Bool

pub record ValidationOutcome : Type 0 where
  pub repo_id : Option String
  pub status : String
  pub summary : String
  pub changed_files : List String
  pub verification : VerificationReport
  pub evidence : List String
  pub risks : List String
