-- ===== src/Shared/SyncQueue/Store.antt =====
-- The durable seam of crates/shared/src/sync_queue.rs: `SyncQueueStore`, `persist_to` and `load`.
-- The store itself is a database behind a trait, so it is an interface: its operations, and what
-- the trait's documentation promises of them. `held` is what a store holds under a key.
use development_kit.Prelude.{
  Option, none, some, ◌≡◌, List, [], ◌∷◌, Result, ok, err, ◌>>=◌, Among, str_eq, if◌then◌else◌, All,
}
use development_kit.Prelude.Order.{str_ord}
use development_kit.TreeMap
use development_kit.Shared.SyncQueue.Operation.{SyncOperation, IdempotencyKey}
use development_kit.Shared.SyncQueue.Queue.{SyncQueue}
pub mod Durable

pub record SyncQueueStore : Type 1 where
  pub Store : Type 0
  pub Error : Type 0
  pub upsert : Store → SyncOperation → Result Error Store
  pub load_all : Store → Result Error (List SyncOperation)
  pub held : Store → IdempotencyKey → Option SyncOperation
  -- A write inserts or replaces the operation under its own key.
  pub held-upsert :
      (s t : Store) (op : SyncOperation) (k : IdempotencyKey)
      → upsert s op ≡ ok t
      → held t k ≡ (if str_eq op.idempotency_key k then some op else held s k)
  -- A load lists every persisted operation and nothing else, in some order.
  pub load_all_sound :
      (s : Store) (ops : List SyncOperation)
      → load_all s ≡ ok ops
      → All (λ op. held s op.idempotency_key ≡ some op) ops
  pub load_all_complete :
      (s : Store) (ops : List SyncOperation) (k : IdempotencyKey) (op : SyncOperation)
      → load_all s ≡ ok ops
      → held s k ≡ some op
      → Among op ops

module _ (store : SyncQueueStore) where
  open store use {Store, Error, upsert, load_all}

  unfoldable pub upsert_each : List SyncOperation → Store → Result Error Store
  upsert_each [] s = ok s
  upsert_each (op ∷ ops) s = upsert s op >>= λ t. upsert_each ops t

  unfoldable pub persist_to : SyncQueue → Store → Result Error Store
  persist_to q s = upsert_each (TreeMap.values q.ops) s

  unfoldable pub load : Store → Result Error SyncQueue
  load s = load_all s >>= λ loaded.
      ok (record { ops = TreeMap.from_values (λ op. op.idempotency_key) loaded TreeMap.empty })
