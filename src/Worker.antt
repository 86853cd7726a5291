-- ===== src/Worker.antt =====
-- packages/worker: the event journal of a worker.
pub mod EventJournal
