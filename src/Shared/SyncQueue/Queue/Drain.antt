-- ===== src/Shared/SyncQueue/Queue/Drain.antt =====
-- A sender that answers every pending operation, by an acknowledgement or a failure, empties the
-- queue of pending operations in as many rounds as the retry policy allows attempts.
use development_kit.Prelude.{
  u32_modulus, ℕ, zero, suc, ◌+◌, ◌≤◌, ◌<◌, ◌≡◌, ◌≢◌, refl, arith, some, Option-cases, Bool, inl,
  inr, List, [], ◌∷◌, map, Among, first,
}
use development_kit.Prelude.Order.{str_ord}
use development_kit.Shared.SyncQueue.Operation.{SyncOperation, IdempotencyKey, is_pending, synced}
use development_kit.Shared.SyncQueue.Operation
use development_kit.Shared.SyncQueue.Retry.{RetryPolicy}
use development_kit.Shared.SyncQueue.Queue.{SyncQueue, get, pending}
use development_kit.Shared.SyncQueue.Queue.Invariant.{IsWf, run-IsWf}
use development_kit.Shared.SyncQueue.Queue.Pending.{pending-found}
use development_kit.Shared.SyncQueue.Queue.Rounds.{
  round, rounds, answered, answer, get-round-some, get-round-none, answered-pending,
  answered_was_pending,
}

module _ (policy : RetryPolicy) where
  -- A pending operation has at most `n` attempts left, and its counter does not wrap.
  abbrev HasLeft : ℕ → SyncQueue → Type 0
  HasLeft n q =
      (k : IdempotencyKey) (op : SyncOperation)
      → get k q ≡ some op
      → op.status ≡ Operation.pending
      → (policy.max_attempts ≤ op.attempts + n) × (op.attempts + 1 < u32_modulus)

  round-kept :
      (ack : SyncOperation → Bool) (q : SyncQueue) (k : IdempotencyKey) (op' : SyncOperation)
      → IsWf q
      → get k (round policy ack q) ≡ some op'
      → (op : SyncOperation) × (get k q ≡ some op) × (op' ≡ answered policy ack op)
  round-kept ack q k op' w h = elim (Option-cases (get k q)) [
    | inl e ↦ absurd (cc (get-round-none policy ack q k w e))
    | inr (op, e) ↦ (op, e, cc (get-round-some policy ack q k op w e))
  ]

  round-HasLeft :
      (ack : SyncOperation → Bool) (n : ℕ) (q : SyncQueue)
      → policy.max_attempts < u32_modulus
      → IsWf q
      → HasLeft (suc n) q
      → HasLeft n (round policy ack q)
        × ((k : IdempotencyKey) (op : SyncOperation)
            → get k (round policy ack q) ≡ some op
            → op.status ≡ Operation.pending
            → 0 < n)
  round-HasLeft ack n q small w left =
      (λ k op' h p. (after k op' h p).0, λ k op' h p. (after k op' h p).1)
    where
      after :
          (k : IdempotencyKey) (op' : SyncOperation)
          → get k (round policy ack q) ≡ some op'
          → op'.status ≡ Operation.pending
          → ((policy.max_attempts ≤ op'.attempts + n) × (op'.attempts + 1 < u32_modulus)) × (0 < n)
      after k op' h p =
          let (op, e, same) = round-kept ack q k op' w h in
          let p' : (answered policy ack op).status ≡ Operation.pending = rw same at p in
          let was = answered_was_pending policy ack op p' in
          let (l, b) = left k op e was in
          let (n', c) = answered-pending policy ack op was b p' in
          rw same
            ((omega (arith, n', l, c, small), omega (arith, n', c, small)), omega (arith, l, c))

  round-IsWf : (ack : SyncOperation → Bool) (q : SyncQueue) → IsWf q → IsWf (round policy ack q)
  unfolding round
  round-IsWf ack q w = run-IsWf (map (answer policy ack) (pending q)) q w

  none_pending :
      (q : SyncQueue)
      → IsWf q
      → ((k : IdempotencyKey) (op : SyncOperation)
          → get k q ≡ some op
          → op.status ≢ Operation.pending)
      → pending q ≡ []
  none_pending q w h =
      empty_of (pending q)
        λ op m. let (found, p) = pending-found op q w m in h op.idempotency_key op found p
    where
      empty_of : (ops : List SyncOperation) → ((op : SyncOperation) → ¬ Among op ops) → ops ≡ []
      empty_of [] f = refl
      empty_of (op ∷ ops) f = absurd (f op (first refl))

  rounds-empty :
      (n : ℕ) (acks : ℕ → SyncOperation → Bool) (q : SyncQueue)
      → policy.max_attempts < u32_modulus
      → IsWf q
      → HasLeft (suc n) q
      → pending (rounds policy (suc n) acks q) ≡ []
  unfolding rounds
  rounds-empty zero acks q small w left =
      none_pending (round policy (acks 0) q) (round-IsWf (acks 0) q w)
        λ k op h p. absurd (omega (arith, (round-HasLeft (acks 0) 0 q small w left).1 k op h p))
  rounds-empty (suc n) acks q small w left =
      rounds-empty n acks (round policy (acks (suc n)) q) small (round-IsWf (acks (suc n)) q w)
        (round-HasLeft (acks (suc n)) (suc n) q small w left).0

  -- Whatever a sender's answers are, a well-formed queue whose counters are below `2 ^ 32 - 1` holds
  -- no pending operation after `n` rounds, each of which answers every operation that is pending at
  -- its start, if `n` is at least 1 and at least the policy's `u32` number of attempts.
  pub rounds-drained :
      (n : ℕ) (acks : ℕ → SyncOperation → Bool) (q : SyncQueue)
      → policy.max_attempts < u32_modulus
      → policy.max_attempts ≤ n
      → 1 ≤ n
      → IsWf q
      → ((k : IdempotencyKey) (op : SyncOperation)
          → get k q ≡ some op
          → op.attempts + 1 < u32_modulus)
      → pending (rounds policy n acks q) ≡ []
  rounds-drained zero acks q small enough one w wrap = absurd (omega arith)
  rounds-drained (suc n) acks q small enough one w wrap =
      rounds-empty n acks q small w λ k op h p. (omega arith, wrap k op h)
