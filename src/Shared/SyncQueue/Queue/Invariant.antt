-- ===== src/Shared/SyncQueue/Queue/Invariant.antt =====
-- The queue's well-formedness, kept by every call.
use development_kit.Prelude.{
  ℕ, Option, none, some, ◌≡◌, refl, sym, ◌∙◌, arith, List, [], ◌∷◌, inl, inr, str_eq→eq,
  Option-cases,
}
use development_kit.Prelude.Order.{str_ord}
use development_kit.TreeMap
use development_kit.TreeMap.{IsSorted}
use development_kit.TreeMap.Sorted.{insert-IsSorted, modify-IsSorted}
use development_kit.Shared.SyncQueue.Operation.{SyncOperation, IdempotencyKey, synced}
use development_kit.Shared.SyncQueue.Retry.{RetryPolicy}
use development_kit.Shared.SyncQueue.Conflict
use development_kit.Shared.SyncQueue.Conflict.{ConflictPolicy, status_after}
use development_kit.Shared.SyncQueue.Queue.{
  SyncQueue, get, update, new, Call, enqueues, marks_synced, resolves, records_failure, step, run,
  mark_synced, resolve_conflict, record_failure, enqueue, set_status,
}
use development_kit.Shared.SyncQueue.Queue.Machine.{advance, step-refines, resolved, failed, at_key}

-- The keys stand in strict order, and each operation stands under its own key.
pub record IsWf (q : SyncQueue) : Type 0 where
  pub sorted : IsSorted q.ops
  pub keyed : (k : IdempotencyKey) (op : SyncOperation) → get k q ≡ some op → op.idempotency_key ≡ k

pub IsWf-new : IsWf new
unfolding get TreeMap.get
IsWf-new = record { sorted = tt; keyed = λ k op h. cc }

update-IsSorted :
    (key : IdempotencyKey) (f : SyncOperation → SyncOperation) (q : SyncQueue)
    → IsSorted q.ops
    → IsSorted (update key f q).ops
unfolding update
update-IsSorted key f q s = modify-IsSorted key f q.ops s

record_failure_cases :
    (P : SyncQueue → Type 0) (j : IdempotencyKey) (policy : RetryPolicy) (q : SyncQueue)
    → P q
    → ((f : SyncOperation → SyncOperation) → P (update j f q))
    → P (record_failure j policy q).0
unfolding record_failure
record_failure_cases P j policy q missing found = elim (Option-cases (get j q)) [
  | inl e ↦ rw (e, record_failure) missing
  | inr (op, e) ↦ rw (e, record_failure) (found _)
]

step-IsSorted : (c : Call) (q : SyncQueue) → IsSorted q.ops → IsSorted (step c q).ops
unfolding step enqueue mark_synced resolve_conflict record_failure
step-IsSorted (enqueues op) q s = ground (arith, insert-IsSorted op.idempotency_key op q.ops s)
step-IsSorted (marks_synced j) q s = ground (arith, update-IsSorted j (set_status synced) q s)
step-IsSorted (resolves j rev policy lts sts) q s =
    ground
      (arith, update-IsSorted j (set_status (status_after (Conflict.decide policy lts sts))) q s)
step-IsSorted (records_failure j policy) q s =
    record_failure_cases (λ r. IsSorted r.ops) j policy q s (λ f. update-IsSorted j f q s)

-- An operation keeps its key through every transition.
abbrev Under : IdempotencyKey → Option SyncOperation → Type 0
Under k o = (op : SyncOperation) → o ≡ some op → op.idempotency_key ≡ k

at_key-Under :
    (j k : IdempotencyKey) (f : SyncOperation → SyncOperation) (o : Option SyncOperation)
    → ((op : SyncOperation) → (f op).idempotency_key ≡ op.idempotency_key)
    → Under k o
    → Under k (at_key j f k o)
at_key-Under j k f none keeps u op h = ground (arith, u op)
at_key-Under j k f (some old) keeps u op h = ground (arith, u old, keeps old)

failed-key :
    (policy : RetryPolicy) (op : SyncOperation)
    → (failed policy op).idempotency_key ≡ op.idempotency_key
unfolding failed
failed-key policy op = ground arith

resolved-key :
    (rev : ℕ) (policy : ConflictPolicy) (l s : ℕ) (op : SyncOperation)
    → (resolved rev policy l s op).idempotency_key ≡ op.idempotency_key
unfolding resolved
resolved-key rev policy l s op = ground arith

advance-Under :
    (c : Call) (k : IdempotencyKey) (o : Option SyncOperation) → Under k o → Under k (advance c k o)
unfolding advance
advance-Under (enqueues added_op) k none u =
    λ op h. ground (arith, str_eq→eq added_op.idempotency_key k)
advance-Under (enqueues added_op) k (some old) u = u
advance-Under (marks_synced j) k o u = at_key-Under j k (set_status synced) o (λ op. refl) u
advance-Under (resolves j rev policy lts sts) k o u =
    at_key-Under j k (resolved rev policy lts sts) o (resolved-key rev policy lts sts) u
advance-Under (records_failure j policy) k o u =
    at_key-Under j k (failed policy) o (failed-key policy) u

-- Every call keeps the queue in order and each operation under its own key.
pub step-IsWf : (c : Call) (q : SyncQueue) → IsWf q → IsWf (step c q)
step-IsWf c q w = record {
  sorted = step-IsSorted c q w.sorted;
  keyed = λ k op h. advance-Under c k (get k q) (w.keyed k) op (sym (step-refines c q k) ∙ h);
}

pub run-IsWf : (cs : List Call) (q : SyncQueue) → IsWf q → IsWf (run cs q)
unfolding run
run-IsWf [] q w = w
run-IsWf (c ∷ cs) q w = run-IsWf cs (step c q) (step-IsWf c q w)
