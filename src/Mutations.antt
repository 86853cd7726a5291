-- ===== src/Mutations.antt =====
-- packages/core/src/mutations: the journal of workspace mutations.
pub mod Journal
