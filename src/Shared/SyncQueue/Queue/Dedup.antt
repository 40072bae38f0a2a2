-- ===== src/Shared/SyncQueue/Queue/Dedup.antt =====
-- Idempotency: a known key is never queued twice, and its payload is never replaced.
use development_kit.Prelude.{
  ℕ, str_eq, Bool-cases, Option, some, ◌≡◌, refl, ◌∙◌, arith, List, [], ◌∷◌, inl, inr, false, ap,
}
use development_kit.Prelude.Order.{str_ord}
use development_kit.Shared.SyncQueue.Operation.{SyncOperation, IdempotencyKey, synced}
use development_kit.Shared.SyncQueue.Conflict.{ConflictPolicy}
use development_kit.Shared.SyncQueue.Retry.{RetryPolicy}
use development_kit.Shared.SyncQueue.Queue.{
  SyncQueue, get, enqueue, Call, enqueues, marks_synced, resolves, records_failure, run, set_status,
}
use development_kit.Shared.SyncQueue.Queue.Access.{enqueue_cases, get-inserted_self}
use development_kit.Shared.SyncQueue.Queue.Machine.{
  advance, advance_all, run-refines, at_key, resolved, failed,
}

-- What a change is, apart from where it stands in its lifecycle.
pub record SameChange (a b : SyncOperation) : Type 0 where
  pub key : a.idempotency_key ≡ b.idempotency_key
  pub payload : a.payload ≡ b.payload
  pub base : a.base_revision ≡ b.base_revision

SameChange-trans : {a b c : SyncOperation} → SameChange a b → SameChange b c → SameChange a c
SameChange-trans s t = record {
  key = s.key ∙ t.key;
  payload = s.payload ∙ t.payload;
  base = s.base ∙ t.base;
}

abbrev pub Kept : SyncOperation → Option SyncOperation → Type 0
Kept old o = (op : SyncOperation) × (o ≡ some op) × SameChange old op

resolved-SameChange :
    (rev : ℕ) (policy : ConflictPolicy) (l s : ℕ) (op : SyncOperation)
    → SameChange op (resolved rev policy l s op)
unfolding resolved
resolved-SameChange rev policy l s op = ground arith

failed-SameChange : (policy : RetryPolicy) (op : SyncOperation) → SameChange op (failed policy op)
unfolding failed
failed-SameChange policy op = ground arith

at_key-Kept :
    (j k : IdempotencyKey) (f : SyncOperation → SyncOperation) (op : SyncOperation)
    → SameChange op (f op)
    → Kept op (at_key j f k (some op))
at_key-Kept j k f op s = elim (Bool-cases (str_eq j k)) [
  | inl e ↦ (f op, rw e refl, s)
  | inr e ↦ (op, rw e refl, record { key = refl; payload = refl; base = refl })
]

advance-Kept :
    (c : Call) (k : IdempotencyKey) (op : SyncOperation) → Kept op (advance c k (some op))
unfolding advance
advance-Kept (enqueues added) k op = (op, refl, record { key = refl; payload = refl; base = refl })
advance-Kept (marks_synced j) k op =
    at_key-Kept j k (set_status synced) op (record { key = refl; payload = refl; base = refl })
advance-Kept (resolves j rev policy lts sts) k op =
    at_key-Kept j k (resolved rev policy lts sts) op (resolved-SameChange rev policy lts sts op)
advance-Kept (records_failure j policy) k op =
    at_key-Kept j k (failed policy) op (failed-SameChange policy op)

advance_all-Kept :
    (cs : List Call) (k : IdempotencyKey) (op : SyncOperation)
    → Kept op (advance_all cs k (some op))
unfolding advance_all
advance_all-Kept [] k op = (op, refl, record { key = refl; payload = refl; base = refl })
advance_all-Kept (c ∷ cs) k op =
    let (op', e, s) = advance-Kept c k op in
    let (last, f, t) = advance_all-Kept cs k op' in
    (last, ap (advance_all cs k) e ∙ f, SameChange-trans s t)

-- After an `enqueue`, new or refused, the key is queued.
enqueued :
    (op : SyncOperation) (q : SyncQueue)
    → (old : SyncOperation) × (get op.idempotency_key (enqueue op q).0 ≡ some old)
enqueued op q = elim (enqueue_cases op q) [
  | inl (old, e, kept) ↦ (old, ap (λ r. get op.idempotency_key r.0) kept ∙ e)
  | inr (missing, grown) ↦ (op, ap (λ r. get op.idempotency_key r.0) grown ∙ get-inserted_self op q)
]

-- Once an operation is queued, no sequence of calls removes it or alters its key, its payload or
-- its base revision.
pub run-Kept :
    (cs : List Call) (q : SyncQueue) (k : IdempotencyKey) (op : SyncOperation)
    → get k q ≡ some op
    → Kept op (get k (run cs q))
run-Kept cs q k op h =
    let (last, e, s) = advance_all-Kept cs k op in
    (last, run-refines cs q k ∙ ap (advance_all cs k) h ∙ e, s)

-- A replay is a no-op: when a key is queued, then after any further calls, acknowledgement and
-- dead-lettering included, enqueueing that key again is refused and leaves the queue as it is.
pub enqueue_replay :
    (op replayed : SyncOperation) (cs : List Call) (q : SyncQueue)
    → op.idempotency_key ≡ replayed.idempotency_key
    → enqueue replayed (run cs (enqueue op q).0) ≡ (run cs (enqueue op q).0, false)
enqueue_replay op replayed cs q same =
    let (old, e) = enqueued op q in
    let (last, f, t) = run-Kept cs (enqueue op q).0 op.idempotency_key old e in
    elim (enqueue_cases replayed (run cs (enqueue op q).0)) [
      | inl (found, g, kept) ↦ kept
      | inr (missing, grown) ↦
          absurd (cc (missing, f, ap (λ k. get k (run cs (enqueue op q).0)) same))
    ]
