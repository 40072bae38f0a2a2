-- ===== src/Shared/SyncQueue.antt =====
-- crates/shared/src/sync_queue.rs: the offline change queue. `Operation`, `Retry`, `Conflict`,
-- `Queue` and `Store` hold the model; the proofs stand in the modules below them.
pub mod Operation
pub mod Retry
pub mod Conflict
pub mod Queue
pub mod Store
