-- ===== src/Conductor.antt =====
-- The conductor: its plan (packages/core/src/modes/conductorPlan.ts), the execution of a worker and
-- the aggregation of verifications (packages/core/src/runtime).
pub mod Plan
pub mod Outcome
pub mod Execution
pub mod Verification
pub mod Dispatch
