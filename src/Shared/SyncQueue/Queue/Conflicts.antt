-- ===== src/Shared/SyncQueue/Queue/Conflicts.antt =====
-- What a conflict check does, and the calls that take an operation out of a terminal status.
use native.Mathlib.Nat.{mod-eq_of_lt}
use development_kit.Prelude.{u32_modulus, ℕ, ◌+◌, ◌≤◌, ◌<◌, ◌≡◌, ◌∙◌, ap, arith, none, some, Option}
use development_kit.Shared.SyncQueue.Operation.{
  SyncOperation, IdempotencyKey, pending, dead_lettered, conflicts_with,
}
use development_kit.Shared.SyncQueue.Retry
use development_kit.Shared.SyncQueue.Retry.{RetryPolicy}
use development_kit.Shared.SyncQueue.Conflict
use development_kit.Shared.SyncQueue.Conflict.{ConflictPolicy, status_after, client_wins}
use development_kit.Shared.SyncQueue.Queue.{
  SyncQueue, get, resolve_conflict, record_failure, set_status, count_failure, settle,
}
use development_kit.Shared.SyncQueue.Queue.Access.{get-update_some}

-- A change made at a revision older than the server's is reconciled: the policy's resolution is
-- returned, and only the status changes, to the one that the resolution names.
pub resolve_conflict_stale :
    (key : IdempotencyKey) (rev base : ℕ) (policy : ConflictPolicy) (lts sts : ℕ) (q : SyncQueue)
    (op : SyncOperation)
    → get key q ≡ some op
    → op.base_revision ≡ some base
    → base < rev
    → ((resolve_conflict key rev policy lts sts q).1 ≡ some (Conflict.decide policy lts sts))
      × (get key (resolve_conflict key rev policy lts sts q).0
          ≡ some (set_status (status_after (Conflict.decide policy lts sts)) op))
unfolding resolve_conflict conflicts_with
resolve_conflict_stale key rev base policy lts sts q op h b newer = (
  ground arith,
  ground (
    arith,
    get-update_some key (set_status (status_after (Conflict.decide policy lts sts))) q op h,
  ),
)

-- The changes that a server revision leaves alone: those with no base revision, and those made at
-- that revision or a newer one.
abbrev pub IsCurrent : ℕ → Option ℕ → Type 0
IsCurrent rev none = Unit
IsCurrent rev (some base) = rev ≤ base

-- A change that is current with the server, or that has no base revision, does not conflict: no
-- resolution is returned and the queue is unchanged, under every policy.
pub resolve_conflict_current :
    (key : IdempotencyKey) (rev : ℕ) (policy : ConflictPolicy) (lts sts : ℕ) (q : SyncQueue)
    (op : SyncOperation)
    → get key q ≡ some op
    → IsCurrent rev op.base_revision
    → resolve_conflict key rev policy lts sts q ≡ (q, none)
unfolding resolve_conflict conflicts_with
resolve_conflict_current key rev policy lts sts q op h current = ground (arith, current)

settle_worn :
    (policy : RetryPolicy) (op : SyncOperation)
    → policy.max_attempts ≤ op.attempts + 1
    → op.attempts + 1 < u32_modulus
    → settle (Retry.decide policy (count_failure op).attempts) (count_failure op)
      ≡ set_status dead_lettered (count_failure op)
unfolding Retry.decide
settle_worn policy op worn bound = rw (mod-eq_of_lt bound) (ground arith)

-- No status is final, `Synced` and `DeadLettered` included: whatever the status of a queued
-- change, a conflict check under `ClientWins` makes it pending again if its base revision is older
-- than the server's, and a failure reported at the policy's ceiling dead-letters it, while the
-- attempts are below 2 ^ 32 - 1.
pub status_reopens :
    (key : IdempotencyKey) (rev base lts sts : ℕ) (policy : RetryPolicy) (q : SyncQueue)
    (op : SyncOperation)
    → get key q ≡ some op
    → op.base_revision ≡ some base
    → base < rev
    → policy.max_attempts ≤ op.attempts + 1
    → op.attempts + 1 < u32_modulus
    → (get key (resolve_conflict key rev client_wins lts sts q).0 ≡ some (set_status pending op))
      × (get key (record_failure key policy q).0
          ≡ some (set_status dead_lettered (count_failure op)))
unfolding record_failure Conflict.decide status_after
status_reopens key rev base lts sts policy q op h b newer worn bound = (
  (resolve_conflict_stale key rev base client_wins lts sts q op h b newer).1,
  rw (h, record_failure)
      (get-update_some key _ q op h ∙ ap some (settle_worn policy op worn bound)),
)
