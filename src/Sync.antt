-- ===== src/Sync.antt =====
-- internal/sync: the outbox of jobs for the 3x-ui panel, and the worker that drains it.
pub mod Store
pub mod Worker
mod Tests
