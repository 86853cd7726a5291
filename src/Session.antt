-- ===== src/Session.antt =====
-- Parts of packages/core/src that one session of the agent keeps: its todo list, its context budget
-- and the detector of stalled tool loops.
pub mod Todo
pub mod ContextPolicy
pub mod Stall
