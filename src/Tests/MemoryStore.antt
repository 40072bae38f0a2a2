-- ===== src/Tests/MemoryStore.antt =====
-- A queue store that keeps its operations in memory, in key order.
use development_kit.Prelude.{
  Str, Option, some, ◌≡◌, sym, ◌∙◌, ap, List, Result, ok, inl, inr, Among, All, All-Among, str_eq,
  str_eq_refl, ne→str_eq, if◌then◌else◌,
}
use development_kit.Prelude.Order.{str_ord, eq_or_ne}
use development_kit.TreeMap
use development_kit.TreeMap.Sorted.{insert-IsSorted}
use development_kit.TreeMap.Values.{get-Among, Among-get}
use development_kit.Shared.SyncQueue.Operation.{SyncOperation, IdempotencyKey}
use development_kit.Shared.SyncQueue.Queue.{SyncQueue, get, new}
use development_kit.Shared.SyncQueue.Queue.Access.{get-inserted_self, get-inserted_ne}
use development_kit.Shared.SyncQueue.Queue.Invariant.{IsWf, IsWf-new}
use development_kit.Shared.SyncQueue.Store.{SyncQueueStore}

abbrev pub MemoryStore : Type 0
MemoryStore = (q : SyncQueue) × IsWf q

abbrev pub inserted : SyncOperation → SyncQueue → SyncQueue
inserted op q = record { ops = TreeMap.insert op.idempotency_key op q.ops }

inserted_keyed :
    (op old : SyncOperation) (q : SyncQueue) (k : IdempotencyKey)
    → IsWf q
    → get k (inserted op q) ≡ some old
    → old.idempotency_key ≡ k
inserted_keyed op old q k w h = elim (eq_or_ne op.idempotency_key k) [
  | inl e ↦ cc (get-inserted_self op q, ap (λ i. get i (inserted op q)) e, h, e)
  | inr ne ↦ w.keyed k old (sym (get-inserted_ne op q k ne) ∙ h)
]

pub IsWf-inserted : (op : SyncOperation) (q : SyncQueue) → IsWf q → IsWf (inserted op q)
IsWf-inserted op q w = record {
  sorted = insert-IsSorted op.idempotency_key op q.ops w.sorted;
  keyed = λ k old h. inserted_keyed op old q k w h;
}

abbrev pub upsert : MemoryStore → SyncOperation → Result Str MemoryStore
upsert (q, w) op = ok (inserted op q, IsWf-inserted op q w)

abbrev pub load_all : MemoryStore → Result Str (List SyncOperation)
load_all (q, w) = ok (TreeMap.values q.ops)

abbrev pub held : MemoryStore → IdempotencyKey → Option SyncOperation
held (q, w) k = get k q

held-inserted :
    (q : SyncQueue) (op : SyncOperation) (k : IdempotencyKey)
    → get k (inserted op q) ≡ (if str_eq op.idempotency_key k then some op else get k q)
held-inserted q op k = elim (eq_or_ne op.idempotency_key k) [
  | inl e ↦ rw (← e, str_eq_refl op.idempotency_key) (get-inserted_self op q)
  | inr ne ↦ rw (ne→str_eq op.idempotency_key k ne) (get-inserted_ne op q k ne)
]

pub held-upsert :
    (s t : MemoryStore) (op : SyncOperation) (k : IdempotencyKey)
    → upsert s op ≡ ok t
    → held t k ≡ (if str_eq op.idempotency_key k then some op else held s k)
held-upsert (q, w) t op k h =
    let e : (inserted op q, IsWf-inserted op q w) ≡ t = cc h in rw (← e) (held-inserted q op k)

pub load_all_sound :
    (s : MemoryStore) (ops : List SyncOperation)
    → load_all s ≡ ok ops
    → All (λ op. held s op.idempotency_key ≡ some op) ops
unfolding get
load_all_sound (q, w) ops h =
    let e : TreeMap.values q.ops ≡ ops = cc h in
    rw (← e) (
      All-Among (TreeMap.values q.ops) λ op m.
        let (k, found) = Among-get op q.ops w.sorted m in
        ap (λ i. TreeMap.get i q.ops) (w.keyed k op found) ∙ found)

pub load_all_complete :
    (s : MemoryStore) (ops : List SyncOperation) (k : IdempotencyKey) (op : SyncOperation)
    → load_all s ≡ ok ops
    → held s k ≡ some op
    → Among op ops
unfolding get
load_all_complete (q, w) ops k op h found =
    let e : TreeMap.values q.ops ≡ ops = cc h in rw (← e) (get-Among k op q.ops found)

abbrev pub memory_store : SyncQueueStore
memory_store = record {
  Store = MemoryStore;
  Error = Str;
  upsert = upsert;
  load_all = load_all;
  held = held;
  held-upsert = held-upsert;
  load_all_sound = load_all_sound;
  load_all_complete = load_all_complete;
}

abbrev pub empty_store : MemoryStore
empty_store = (new, IsWf-new)
