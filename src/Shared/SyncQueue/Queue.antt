-- ===== src/Shared/SyncQueue/Queue.antt =====
-- `SyncQueue` of crates/shared/src/sync_queue.rs. A method that writes returns the new queue
-- beside its result. `attempts += 1` wraps at 2 ^ 32, as an optimised build does.
pub mod Access
pub mod Invariant
pub mod Failures
pub mod Pending
pub mod Rounds
pub mod Drain
pub mod Conflicts
pub mod Dedup
pub mod Machine
use development_kit.Prelude.{
  u32_modulus, ℕ, ◌+◌, ◌%◌, Option, none, some, Bool, true, false, List, [], ◌∷◌, select,
  if◌then◌else◌,
}
use development_kit.TreeMap
use development_kit.TreeMap.{TreeMap}
use development_kit.Shared.SyncQueue.Operation.{
  SyncOperation, IdempotencyKey, OpStatus, synced, dead_lettered, is_pending, conflicts_with,
}
use development_kit.Shared.SyncQueue.Retry
use development_kit.Shared.SyncQueue.Retry.{RetryPolicy, RetryDecision, retry_after, give_up}
use development_kit.Shared.SyncQueue.Conflict
use development_kit.Shared.SyncQueue.Conflict.{ConflictPolicy, ConflictResolution, status_after}
use development_kit.Prelude.Order.{str_ord}

pub record SyncQueue : Type 0 where
  pub ops : TreeMap IdempotencyKey SyncOperation

abbrev pub new : SyncQueue
new = record { ops = TreeMap.empty }

unfoldable pub enqueue : SyncOperation → SyncQueue → SyncQueue × Bool
enqueue op q =
    if TreeMap.contains_key op.idempotency_key q.ops
    then (q, false)
    else (record { ops = TreeMap.insert op.idempotency_key op q.ops }, true)

unfoldable pub get : IdempotencyKey → SyncQueue → Option SyncOperation
get key q = TreeMap.get key q.ops

unfoldable pub pending : SyncQueue → List SyncOperation
pending q = select is_pending (TreeMap.values q.ops)

-- A write through `get_mut`.
unfoldable pub update : IdempotencyKey → (SyncOperation → SyncOperation) → SyncQueue → SyncQueue
update key f q = record { ops = TreeMap.modify key f q.ops }

abbrev pub set_status : OpStatus → SyncOperation → SyncOperation
set_status s op = record op { status = s }

unfoldable pub mark_synced : IdempotencyKey → SyncQueue → SyncQueue × Bool
mark_synced key q = elim (get key q) [
  | some op ↦ (update key (set_status synced) q, true)
  | none ↦ (q, false)
]

unfoldable pub resolve_conflict :
    IdempotencyKey → ℕ → ConflictPolicy → ℕ → ℕ → SyncQueue → SyncQueue × Option ConflictResolution
resolve_conflict key server_revision policy local_ts server_ts q = elim (get key q) [
  | none ↦ (q, none)
  | some op ↦
      if conflicts_with op server_revision
      then (let resolution = Conflict.decide policy local_ts server_ts in
          (update key (set_status (status_after resolution)) q, some resolution))
      else (q, none)
]

abbrev pub count_failure : SyncOperation → SyncOperation
count_failure op = record op { attempts = (op.attempts + 1) % u32_modulus }

-- `if matches!(decision, GiveUp) { op.status = DeadLettered }`.
abbrev pub settle : RetryDecision → SyncOperation → SyncOperation
settle give_up op = record op { status = dead_lettered }
settle (retry_after delay) op = op

unfoldable pub record_failure :
    IdempotencyKey → RetryPolicy → SyncQueue → SyncQueue × Option RetryDecision
record_failure key policy q = elim (get key q) [
  | none ↦ (q, none)
  | some op ↦
      (let decision = Retry.decide policy (count_failure op).attempts in
        (update key (λ o. settle decision (count_failure o)) q, some decision))
]

-- The calls that change a queue, and the queue after a sequence of them.
pub data Call : Type 0 where
  enqueues : SyncOperation → Call
  marks_synced : IdempotencyKey → Call
  resolves : IdempotencyKey → ℕ → ConflictPolicy → ℕ → ℕ → Call
  records_failure : IdempotencyKey → RetryPolicy → Call

unfoldable pub step : Call → SyncQueue → SyncQueue
step (enqueues op) q = (enqueue op q).0
step (marks_synced key) q = (mark_synced key q).0
step (resolves key server_revision policy local_ts server_ts) q =
    (resolve_conflict key server_revision policy local_ts server_ts q).0
step (records_failure key policy) q = (record_failure key policy q).0

unfoldable pub run : List Call → SyncQueue → SyncQueue
run [] q = q
run (c ∷ cs) q = run cs (step c q)
