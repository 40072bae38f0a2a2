-- ===== src/Shared/SyncQueue/Queue/Machine.antt =====
-- The specification of the queue: one state machine for each key. `advance` says what a call does
-- to the operation under one key, with no map in sight; the queue is proved to refine it.
use mathlib.Core.Option
use development_kit.Prelude.{
  ℕ, str_eq_refl, sym, Option, none, some, ◌≡◌, refl, ◌∙◌, ap, arith, List, [], ◌∷◌, Bool-cases,
  inl, inr, str_eq, if◌then◌else◌, ne→str_eq, Option-cases,
}
use development_kit.Prelude.Order.{str_ord, eq_or_ne}
use development_kit.Shared.SyncQueue.Operation.{
  SyncOperation, IdempotencyKey, synced, conflicts_with,
}
use development_kit.Shared.SyncQueue.Retry
use development_kit.Shared.SyncQueue.Retry.{RetryPolicy}
use development_kit.Shared.SyncQueue.Conflict
use development_kit.Shared.SyncQueue.Conflict.{ConflictPolicy, status_after}
use development_kit.Shared.SyncQueue.Queue.{
  SyncQueue, get, update, enqueue, mark_synced, resolve_conflict, record_failure, set_status,
  count_failure, settle, Call, enqueues, marks_synced, resolves, records_failure, step, run,
}
use development_kit.Shared.SyncQueue.Queue.Access.{
  get-update_self, get-update_ne, enqueue_cases, get-inserted_self, get-inserted_ne,
}

-- The operation after a conflict check, and after a failed send.
unfoldable pub resolved : ℕ → ConflictPolicy → ℕ → ℕ → SyncOperation → SyncOperation
resolved server_revision policy local_ts server_ts op =
    if conflicts_with op server_revision
    then set_status (status_after (Conflict.decide policy local_ts server_ts)) op
    else op

unfoldable pub failed : RetryPolicy → SyncOperation → SyncOperation
failed policy op = settle (Retry.decide policy (count_failure op).attempts) (count_failure op)

abbrev pub added : SyncOperation → IdempotencyKey → Option SyncOperation → Option SyncOperation
added op k (some old) = some old
added op k none = if str_eq op.idempotency_key k then some op else none

abbrev pub at_key :
    IdempotencyKey
    → (SyncOperation → SyncOperation)
    → IdempotencyKey
    → Option SyncOperation
    → Option SyncOperation
at_key j f k o = if str_eq j k then Option.map f o else o

unfoldable pub advance : Call → IdempotencyKey → Option SyncOperation → Option SyncOperation
advance (enqueues op) k o = added op k o
advance (marks_synced j) k o = at_key j (set_status synced) k o
advance (resolves j server_revision policy local_ts server_ts) k o =
    at_key j (resolved server_revision policy local_ts server_ts) k o
advance (records_failure j policy) k o = at_key j (failed policy) k o

unfoldable pub advance_all :
    List Call → IdempotencyKey → Option SyncOperation → Option SyncOperation
advance_all [] k o = o
advance_all (c ∷ cs) k o = advance_all cs k (advance c k o)

enqueue-refines :
    (op : SyncOperation) (q : SyncQueue) (k : IdempotencyKey)
    → get k (enqueue op q).0 ≡ added op k (get k q)
enqueue-refines op q k = elim (eq_or_ne op.idempotency_key k) [
  | inl e ↦ elim (enqueue_cases op q) [
    | inl (old, found, kept) ↦ rw (kept, ← e, found) refl
    | inr (missing, grown) ↦
        rw (grown, ← e, missing, str_eq_refl op.idempotency_key) (get-inserted_self op q)
  ]
  | inr ne ↦ elim (enqueue_cases op q) [
    | inl (old, found, kept) ↦
        ground (arith, ap (λ r. get k r.0) kept, ne→str_eq op.idempotency_key k ne)
    | inr (missing, grown) ↦ ground (
      arith,
      ap (λ r. get k r.0) grown,
      get-inserted_ne op q k ne,
      ne→str_eq op.idempotency_key k ne,
    )
  ]
]

-- A write in place, when the function written agrees with `f` on what is found.
update-refines :
    (j : IdempotencyKey) (f g : SyncOperation → SyncOperation) (q : SyncQueue) (k : IdempotencyKey)
    → Option.map f (get j q) ≡ Option.map g (get j q)
    → get k (update j f q) ≡ at_key j g k (get k q)
update-refines j f g q k h = elim (eq_or_ne j k) [
  | inl e ↦ rw (← e, str_eq_refl j) (get-update_self j f q ∙ h)
  | inr ne ↦ rw (ne→str_eq j k ne) (get-update_ne j f q k ne)
]

-- A call on a key that is not there, or that changes nothing, agrees too.
untouched :
    (j : IdempotencyKey) (g : SyncOperation → SyncOperation) (q : SyncQueue) (k : IdempotencyKey)
    → Option.map g (get j q) ≡ get j q
    → get k q ≡ at_key j g k (get k q)
untouched j g q k h = elim (eq_or_ne j k) [
  | inl e ↦ rw (← e, str_eq_refl j) (sym h)
  | inr ne ↦ rw (ne→str_eq j k ne) refl
]

mark_synced-refines :
    (j : IdempotencyKey) (q : SyncQueue) (k : IdempotencyKey)
    → get k (mark_synced j q).0 ≡ at_key j (set_status synced) k (get k q)
unfolding mark_synced
mark_synced-refines j q k = elim (Option-cases (get j q)) [
  | inl e ↦ rw (e, mark_synced) (untouched j (set_status synced) q k (rw e refl))
  | inr (op, e) ↦ rw (e, mark_synced) (update-refines j _ (set_status synced) q k refl)
]

resolve_conflict-refines :
    (j : IdempotencyKey) (rev : ℕ) (policy : ConflictPolicy) (lts sts : ℕ) (q : SyncQueue)
    (k : IdempotencyKey)
    → get k (resolve_conflict j rev policy lts sts q).0
      ≡ at_key j (resolved rev policy lts sts) k (get k q)
unfolding resolve_conflict resolved
resolve_conflict-refines j rev policy lts sts q k = elim (Option-cases (get j q)) [
  | inl e ↦ rw (e, resolve_conflict) (untouched j (resolved rev policy lts sts) q k (rw e refl))
  | inr (op, e) ↦ elim (Bool-cases (conflicts_with op rev)) [
    | inl stale ↦
        rw (e, resolve_conflict, stale)
          (update-refines j _ (resolved rev policy lts sts) q k (rw (e, stale) refl))
    | inr fresh ↦
        rw (e, resolve_conflict, fresh)
          (untouched j (resolved rev policy lts sts) q k (rw (e, fresh) refl))
  ]
]

record_failure-refines :
    (j : IdempotencyKey) (policy : RetryPolicy) (q : SyncQueue) (k : IdempotencyKey)
    → get k (record_failure j policy q).0 ≡ at_key j (failed policy) k (get k q)
unfolding record_failure failed
record_failure-refines j policy q k = elim (Option-cases (get j q)) [
  | inl e ↦ rw (e, record_failure) (untouched j (failed policy) q k (rw e refl))
  | inr (op, e) ↦ rw (e, record_failure) (update-refines j _ (failed policy) q k (rw e refl))
]

-- Every call does to each key exactly what the machine of that key says, whatever else is queued.
pub step-refines :
    (c : Call) (q : SyncQueue) (k : IdempotencyKey) → get k (step c q) ≡ advance c k (get k q)
unfolding step advance
step-refines (enqueues op) q k = enqueue-refines op q k
step-refines (marks_synced j) q k = mark_synced-refines j q k
step-refines (resolves j rev policy lts sts) q k = resolve_conflict-refines j rev policy lts sts q k
step-refines (records_failure j policy) q k = record_failure-refines j policy q k

-- After any sequence of calls, each key holds what its own machine computes from that sequence.
pub run-refines :
    (cs : List Call) (q : SyncQueue) (k : IdempotencyKey)
    → get k (run cs q) ≡ advance_all cs k (get k q)
unfolding run advance_all
run-refines [] q k = refl
run-refines (c ∷ cs) q k = run-refines cs (step c q) k ∙ ap (advance_all cs k) (step-refines c q k)
