-- ===== src/Runtime.antt =====
-- The loops of packages/core/src/runtime that ask the model and run its tool calls.
pub mod CompleteLoop
