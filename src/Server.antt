-- ===== src/Server.antt =====
-- packages/server: the reaper of idle workspaces.
pub mod IdleReaper
