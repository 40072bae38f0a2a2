-- ===== src/Shared/SyncQueue/Queue/Pending.antt =====
-- The sender's view: `pending` lists exactly the pending operations, in ascending key order.
use development_kit.Prelude.{
  some, ◌≡◌, ap, ◌∙◌, arith, true, Among, Among-select, select-Among, ◌↔◌,
}
use development_kit.Prelude.Order.{str_ord}
use development_kit.TreeMap
use development_kit.TreeMap.Values.{get-Among, Among-get, Ascends, values-Ascends, select-Ascends}
use development_kit.Shared.SyncQueue.Operation.{SyncOperation, OpStatus, is_pending}
use development_kit.Shared.SyncQueue.Operation
use development_kit.Shared.SyncQueue.Queue.{SyncQueue, get, pending}
use development_kit.Shared.SyncQueue.Queue.Invariant.{IsWf}

pub is_pending_iff : (op : SyncOperation) → (is_pending op ≡ true) ↔ (op.status ≡ Operation.pending)
unfolding is_pending
is_pending_iff op = ground arith

pub pending-found :
    (op : SyncOperation) (q : SyncQueue)
    → IsWf q
    → Among op (pending q)
    → (get op.idempotency_key q ≡ some op) × (op.status ≡ Operation.pending)
unfolding pending get
pending-found op q w m =
    let (n, p) = select-Among is_pending (TreeMap.values q.ops) m in
    let (k, h) = Among-get op q.ops w.sorted n in
    (ap (λ i. TreeMap.get i q.ops) (w.keyed k op h) ∙ h, (is_pending_iff op).0 p)

-- In a well-formed queue, `pending` holds an operation exactly when it is the one under its key and
-- its status is `Pending`, and the keys of the list ascend strictly, so none is listed twice.
pub pending_lem :
    (q : SyncQueue)
    → IsWf q
    → ((op : SyncOperation)
        → Among op (pending q)
          ↔ ((get op.idempotency_key q ≡ some op) × (op.status ≡ Operation.pending)))
      × Ascends (λ op. op.idempotency_key) (pending q)
unfolding pending get
pending_lem q w = (
  λ op. (
    pending-found op q w,
    λ h.
        Among-select is_pending (TreeMap.values q.ops) (get-Among op.idempotency_key op q.ops h.0)
          ((is_pending_iff op).1 h.1),
  ),
  select-Ascends (λ op. op.idempotency_key) is_pending (TreeMap.values q.ops)
      (values-Ascends (λ op. op.idempotency_key) q.ops w.sorted w.keyed),
)
