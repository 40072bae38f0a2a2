-- ===== src/Shared/SyncQueue/Store/Durable.antt =====
-- A checkpoint and a reload give the queue back.
use development_kit.Prelude.{
  none, some, ◌≡◌, All-map, All-Among, >>=-eq-ok, sym, ◌∙◌, ap, List, [], ◌∷◌, ok, ◌>>=◌, Among,
  cons-Among, str_eq, str_eq→eq, All, Bool-cases, inl, inr, Option-cases, str_eq_refl,
}
use development_kit.Prelude.Order.{str_ord}
use development_kit.TreeMap
use development_kit.TreeMap.Values.{get-Among, Among-get}
use development_kit.TreeMap.Rebuild.{from_values-eq}
use development_kit.Shared.SyncQueue.Operation.{SyncOperation, IdempotencyKey}
use development_kit.Shared.SyncQueue.Queue.{SyncQueue, get}
use development_kit.Shared.SyncQueue.Queue.Invariant.{IsWf}
use development_kit.Shared.SyncQueue.Store.{SyncQueueStore, upsert_each, persist_to, load}

module _ (store : SyncQueueStore) where
  open store use {
    Store, Error, upsert, load_all, held, held-upsert, load_all_sound, load_all_complete,
  }

  module _ (q : SyncQueue) where
    abbrev IsStored : SyncOperation → Type 0
    IsStored op = get op.idempotency_key q ≡ some op

    held-upsert_stored :
        (op : SyncOperation) (s t : Store) (k : IdempotencyKey)
        → IsStored op
        → held s k ≡ get k q
        → upsert s op ≡ ok t
        → held t k ≡ get k q
    held-upsert_stored op s t k p h e = elim (Bool-cases (str_eq op.idempotency_key k)) [
      | inl same ↦
          held-upsert s t op k e
          ∙ rw same (sym p ∙ ap (λ i. get i q) (str_eq→eq op.idempotency_key k same))
      | inr other ↦ held-upsert s t op k e ∙ rw other h
    ]

    held-upsert_each :
        (ops : List SyncOperation) (s t : Store) (k : IdempotencyKey)
        → All IsStored ops
        → held s k ≡ get k q
        → upsert_each store ops s ≡ ok t
        → held t k ≡ get k q
    unfolding upsert_each
    held-upsert_each [] s t k a h e = ap (λ o. held o k) (sym (cc e)) ∙ h
    held-upsert_each (op ∷ ops) s t k a h e =
        let (u, e₁, e₂) = >>=-eq-ok (upsert s op) (λ v. upsert_each store ops v) e in
        held-upsert_each ops u t k a.1 (held-upsert_stored op s u k a.0 h e₁) e₂

    held-written :
        (op : SyncOperation) (ops : List SyncOperation) (s t : Store)
        → All IsStored ops
        → Among op ops
        → upsert_each store ops s ≡ ok t
        → held t op.idempotency_key ≡ get op.idempotency_key q
    unfolding upsert_each
    held-written op [] s t a m e = elim m [ ]
    held-written op (x ∷ ops) s t a m e =
        let (u, e₁, e₂) = >>=-eq-ok (upsert s x) (λ v. upsert_each store ops v) e in
        elim (cons-Among m) [
          | inl same ↦
              held-upsert_each ops u t op.idempotency_key a.1
                (held-upsert s u x op.idempotency_key e₁
                  ∙ rw same (rw (str_eq_refl x.idempotency_key) (sym a.0)))
                e₂
          | inr n ↦ held-written op ops u t a.1 n e₂
        ]

    -- The checkpointed operations of a well-formed queue stand under their keys.
    values-IsStored : IsWf q → All IsStored (TreeMap.values q.ops)
    unfolding get
    values-IsStored w = All-Among (TreeMap.values q.ops) λ op m.
        let (k, h) = Among-get op q.ops w.sorted m in
        ap (λ i. TreeMap.get i q.ops) (w.keyed k op h) ∙ h

    -- The store may hold an earlier checkpoint, as long as the queue knows its keys.
    abbrev pub Covers : Store → Type 0
    Covers s = (k : IdempotencyKey) → get k q ≡ none → held s k ≡ none

    -- After a checkpoint of a well-formed queue that succeeds, the store holds under every key
    -- what the queue holds under it, if before the checkpoint it held no keys that the queue does
    -- not know.
    pub held-persist_to :
        (s t : Store) (k : IdempotencyKey)
        → IsWf q
        → Covers s
        → persist_to store q s ≡ ok t
        → held t k ≡ get k q
    unfolding persist_to get
    held-persist_to s t k w c e = elim (Option-cases (TreeMap.get k q.ops)) [
      | inl missing ↦
          held-upsert_each (TreeMap.values q.ops) s t k (values-IsStored w)
            (c k missing ∙ sym missing) e
      | inr (op, found) ↦
          (let same = w.keyed k op found in
            ap (held t) (sym same)
            ∙ held-written op (TreeMap.values q.ops) s t (values-IsStored w)
                (get-Among k op q.ops found) e
            ∙ ap (λ i. TreeMap.get i q.ops) same)
    ]

  rebuilt :
      (q : SyncQueue) (t : Store) (ops : List SyncOperation)
      → IsWf q
      → ((k : IdempotencyKey) → held t k ≡ get k q)
      → load_all t ≡ ok ops
      → TreeMap.from_values (λ op. op.idempotency_key) ops TreeMap.empty ≡ q.ops
  unfolding get
  rebuilt q t ops w h l =
      from_values-eq (λ op. op.idempotency_key) q.ops ops w.sorted
        (All-map ops (λ op p. sym (h op.idempotency_key) ∙ p) (load_all_sound t ops l))
        (λ k op p. (w.keyed k op p, load_all_complete t ops k op l (h k ∙ p)))

  abbrev of_ops : TreeMap.TreeMap IdempotencyKey SyncOperation → SyncQueue
  of_ops m = record { ops = m }

  -- After a checkpoint of a well-formed queue that succeeds, a reload succeeds whenever the store
  -- can be read, and returns exactly the queue that was checkpointed, whatever order the store
  -- lists its operations in, if before the checkpoint the store held no keys that the queue does
  -- not know.
  pub load-persist_to :
      (q : SyncQueue) (s t : Store) (ops : List SyncOperation)
      → IsWf q
      → Covers q s
      → persist_to store q s ≡ ok t
      → load_all t ≡ ok ops
      → load store t ≡ ok q
  unfolding load
  load-persist_to q s t ops w c e l =
      ap
        (λ r. r >>= λ loaded.
          ok (of_ops (TreeMap.from_values (λ op. op.idempotency_key) loaded TreeMap.empty)))
        l
      ∙ ap (λ m. ok (of_ops m)) (rebuilt q t ops w (λ k. held-persist_to q s t k w c e) l)
