-- ===== src/Gateway.antt =====
-- packages/core/src/tools: the tool gateway, its retry policy and the permission modes, and the
-- scheduler of packages/core/src/runtime/toolLoopShared.ts that calls the gateway.
pub mod Types
pub mod Retry
pub mod Permission
pub mod Registry
pub mod Call
pub mod Schedule
