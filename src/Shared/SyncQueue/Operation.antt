-- ===== src/Shared/SyncQueue/Operation.antt =====
-- `SyncOperation` and `OpStatus` of crates/shared/src/sync_queue.rs.
use development_kit.Prelude.{ℕ, Str, Option, none, some, Bool, false, ltb}

-- `String`, compared by its bytes.
abbrev pub IdempotencyKey : Type 0
IdempotencyKey = Str

pub data OpStatus : Type 0 where
  pending synced dead_lettered conflicted : OpStatus

pub record SyncOperation : Type 0 where
  pub idempotency_key : IdempotencyKey
  pub payload : Str
  pub base_revision : Option ℕ
  pub status : OpStatus
  pub attempts : ℕ

unfoldable pub new : IdempotencyKey → Str → Option ℕ → SyncOperation
new key payload base_revision = record {
  idempotency_key = key;
  payload = payload;
  base_revision = base_revision;
  status = pending;
  attempts = 0;
}

unfoldable pub is_pending : SyncOperation → Bool
is_pending op = elim op.status [ pending ↦ Bool.true | _ ↦ false ]

unfoldable pub conflicts_with : SyncOperation → ℕ → Bool
conflicts_with op server_revision = elim op.base_revision [
  | some base ↦ ltb base server_revision
  | none ↦ false
]
