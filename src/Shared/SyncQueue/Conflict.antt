-- ===== src/Shared/SyncQueue/Conflict.antt =====
-- `ConflictPolicy` and `ConflictResolution` of crates/shared/src/sync_queue.rs.
use development_kit.Prelude.{ℕ, ltb, if◌then◌else◌}
use development_kit.Shared.SyncQueue.Operation.{OpStatus, pending, synced, conflicted}

pub data ConflictResolution : Type 0 where
  apply_local keep_server manual : ConflictResolution

pub data ConflictPolicy : Type 0 where
  server_wins client_wins last_writer_wins manual : ConflictPolicy

unfoldable pub decide : ConflictPolicy → ℕ → ℕ → ConflictResolution
decide server_wins local_ts server_ts = keep_server
decide client_wins local_ts server_ts = apply_local
decide ConflictPolicy.manual local_ts server_ts = ConflictResolution.manual
decide last_writer_wins local_ts server_ts =
    if ltb server_ts local_ts then apply_local else keep_server

-- The `match` that gives the operation its new status.
unfoldable pub status_after : ConflictResolution → OpStatus
status_after apply_local = pending
status_after keep_server = synced
status_after ConflictResolution.manual = conflicted
