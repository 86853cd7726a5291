-- ===== src/Builtin.antt =====
-- packages/core/src/tools/builtin: what the file tools compute beside their reads and writes.
pub mod LineStats
