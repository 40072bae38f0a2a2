-- ===== src/Shared/SyncQueue/Queue/Access.antt =====
-- What `get` sees after the two ways in which the queue writes, `insert` and a write in place.
use mathlib.Core.Option
use development_kit.Prelude.{
  none, some, ◌≡◌, ◌≢◌, refl, ◌∙◌, ap, true, false, Option-cases, inl, inr, ◌⊎◌,
}
use development_kit.Prelude.Order.{str_ord}
use development_kit.TreeMap
use development_kit.TreeMap.Lookup.{get-modify_self, get-modify_ne, get-insert_self, get-insert_ne}
use development_kit.Shared.SyncQueue.Operation.{SyncOperation, IdempotencyKey}
use development_kit.Shared.SyncQueue.Queue.{SyncQueue, get, update, enqueue}

module _ (key : IdempotencyKey) (f : SyncOperation → SyncOperation) (q : SyncQueue) where
  pub get-update_self : get key (update key f q) ≡ Option.map f (get key q)
  unfolding get update
  get-update_self = get-modify_self key f q.ops

  pub get-update_some :
      (op : SyncOperation) → get key q ≡ some op → get key (update key f q) ≡ some (f op)
  get-update_some op h = get-update_self ∙ ap (Option.map f) h

  pub get-update_ne : (j : IdempotencyKey) → key ≢ j → get j (update key f q) ≡ get j q
  unfolding get update
  get-update_ne j h = get-modify_ne key j f q.ops h

-- A queue to which a new operation was added, in terms of lookups.
pub enqueue_cases :
    (op : SyncOperation) (q : SyncQueue)
    → ((old : SyncOperation) × (get op.idempotency_key q ≡ some old) × (enqueue op q ≡ (q, false)))
      ⊎ ((get op.idempotency_key q ≡ none)
          × (enqueue op q ≡ (record { ops = TreeMap.insert op.idempotency_key op q.ops }, true)))
unfolding enqueue get TreeMap.contains_key
enqueue_cases op q = elim (Option-cases (TreeMap.get op.idempotency_key q.ops)) [
  | inl e ↦ inr (e, rw e refl)
  | inr (old, e) ↦ inl (old, e, rw e refl)
]

pub get-inserted_self :
    (op : SyncOperation) (q : SyncQueue)
    → get op.idempotency_key (record { ops = TreeMap.insert op.idempotency_key op q.ops }) ≡ some op
unfolding get
get-inserted_self op q = get-insert_self op.idempotency_key op q.ops

pub get-inserted_ne :
    (op : SyncOperation) (q : SyncQueue) (j : IdempotencyKey)
    → op.idempotency_key ≢ j
    → get j (record { ops = TreeMap.insert op.idempotency_key op q.ops }) ≡ get j q
unfolding get
get-inserted_ne op q j h = get-insert_ne op.idempotency_key j op q.ops h
