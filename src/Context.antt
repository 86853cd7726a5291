-- ===== src/Context.antt =====
-- The conversation that a model request is built from: packages/core/src/context.
pub mod Tokens
pub mod Thread
pub mod Edits
pub mod State
pub mod Legacy
pub mod Prefix
pub mod Aging
pub mod Stages
pub mod Governor
pub mod Pairing
