-- ===== src/Shared/SyncQueue/Queue/Rounds.antt =====
-- A sender's rounds: each answers every operation that is pending at its start, by an acknowledgement
-- or a failure.
use native.Mathlib.Nat.{mod-eq_of_lt}
use development_kit.Prelude.{
  u32_modulus, ℕ, zero, suc, ◌+◌, ◌<◌, ◌≡◌, ◌≢◌, refl, sym, ap, ◌∙◌, arith, Option, none, some,
  Bool, Bool-cases, inl, inr, List, [], ◌∷◌, map, All, All-at, All-map, All-Among, Among, first,
  later, Ordering, str_eq_refl, ne→str_eq, if◌then◌else◌,
}
use development_kit.Prelude.Order.{str_ord, str_cmp}
use development_kit.TreeMap.Values.{Ascends}
use development_kit.Shared.SyncQueue.Operation.{SyncOperation, IdempotencyKey, is_pending, synced}
use development_kit.Shared.SyncQueue.Operation
use development_kit.Shared.SyncQueue.Retry
use development_kit.Shared.SyncQueue.Retry.{RetryPolicy}
use development_kit.Shared.SyncQueue.Queue.{
  SyncQueue, get, pending, Call, marks_synced, records_failure, run,
}
use development_kit.Shared.SyncQueue.Queue.Invariant.{IsWf}
use development_kit.Shared.SyncQueue.Queue.Pending.{is_pending_iff, pending_lem, pending-found}
use development_kit.Shared.SyncQueue.Queue.Machine.{advance, advance_all, run-refines, failed}

abbrev key_of : SyncOperation → IdempotencyKey
key_of op = op.idempotency_key

module _ (policy : RetryPolicy) where
  -- What the sender reports of one operation: acknowledged or failed.
  abbrev pub answer : (SyncOperation → Bool) → SyncOperation → Call
  answer acknowledged op =
      if acknowledged op
      then marks_synced op.idempotency_key
      else records_failure op.idempotency_key policy

  -- A round: each operation that is pending at its start is answered once, in the queue's order.
  unfoldable pub round : (SyncOperation → Bool) → SyncQueue → SyncQueue
  unfolding run pending
  round acknowledged q = run (map (answer acknowledged) (pending q)) q

  -- Rounds in which the answers are any at all.
  unfoldable pub rounds : ℕ → (ℕ → SyncOperation → Bool) → SyncQueue → SyncQueue
  unfolding round
  rounds zero acknowledged q = q
  rounds (suc n) acknowledged q = rounds n acknowledged (round (acknowledged n) q)

  answer_other :
      (ack : SyncOperation → Bool) (w : SyncOperation) (k : IdempotencyKey)
      (o : Option SyncOperation)
      → w.idempotency_key ≢ k
      → advance (answer ack w) k o ≡ o
  unfolding advance
  answer_other ack w k o ne = elim (Bool-cases (ack w)) [
    | inl t ↦ rw t (rw (ne→str_eq w.idempotency_key k ne) refl)
    | inr f ↦ rw f (rw (ne→str_eq w.idempotency_key k ne) refl)
  ]

  answers_other :
      (ack : SyncOperation → Bool) (ops : List SyncOperation) (k : IdempotencyKey)
      (o : Option SyncOperation)
      → All (λ w. w.idempotency_key ≢ k) ops
      → advance_all (map (answer ack) ops) k o ≡ o
  unfolding advance_all
  answers_other ack [] k o h = refl
  answers_other ack (w ∷ ops) k o (ne, h) =
      ap (advance_all (map (answer ack) ops) k) (answer_other ack w k o ne)
      ∙ answers_other ack ops k o h

  lt_ne : (a b : IdempotencyKey) → str_cmp a b ≡ Ordering.lt → a ≢ b
  lt_ne a b h e = let h' : str_cmp b b ≡ Ordering.lt = rw e at h in cc (str_ord.cmp_refl b)

  answers_own :
      (ack : SyncOperation → Bool) (ops : List SyncOperation) (op : SyncOperation)
      (o : Option SyncOperation)
      → Ascends key_of ops
      → Among op ops
      → advance_all (map (answer ack) ops) op.idempotency_key o
        ≡ advance (answer ack op) op.idempotency_key o
  unfolding advance_all
  answers_own ack [] op o a m = elim m [ ]
  answers_own ack (w ∷ ops) op o (above, a) (first e) = rw e (
      answers_other ack ops w.idempotency_key _
        (All-map ops (λ v lt e'. lt_ne _ _ lt (sym e')) above))
  answers_own ack (w ∷ ops) op o (above, a) (later m) =
      ap (advance_all (map (answer ack) ops) op.idempotency_key) (
        answer_other ack w op.idempotency_key o
          (lt_ne _ _ (All-at (λ v. str_cmp (key_of w) (key_of v) ≡ Ordering.lt) ops above m)))
      ∙ answers_own ack ops op o a m

  -- What one round makes of the operation under a key.
  pub answered : (SyncOperation → Bool) → SyncOperation → SyncOperation
  answered ack op =
      if is_pending op
      then (if ack op then record op { status = synced } else failed policy op)
      else op

  advance-answer :
      (ack : SyncOperation → Bool) (op : SyncOperation)
      → advance (answer ack op) op.idempotency_key (some op)
        ≡ some (if ack op then record op { status = synced } else failed policy op)
  unfolding advance
  advance-answer ack op = elim (Bool-cases (ack op)) [
    | inl t ↦ rw t (rw (str_eq_refl op.idempotency_key) refl)
    | inr f ↦ rw f (rw (str_eq_refl op.idempotency_key) refl)
  ]

  pub get-round-some :
      (ack : SyncOperation → Bool) (q : SyncQueue) (k : IdempotencyKey) (op : SyncOperation)
      → IsWf q
      → get k q ≡ some op
      → get k (round ack q) ≡ some (answered ack op)
  unfolding round answered
  get-round-some ack q k op w h =
      let keyed : op.idempotency_key ≡ k = w.keyed k op h in
      let own : get op.idempotency_key q ≡ some op = ap (λ i. get i q) keyed ∙ h in
      run-refines (map (answer ack) (pending q)) q k
      ∙ ap (advance_all (map (answer ack) (pending q)) k) h
      ∙ elim (Bool-cases (is_pending op)) [
        | inl p ↦ rw p (
            rw (← keyed) (
              answers_own ack (pending q) op (some op) (pending_lem q w).1
                (((pending_lem q w).0 op).1 (own, (is_pending_iff op).0 p))
              ∙ advance-answer ack op))
        | inr f ↦ rw f (
            answers_other ack (pending q) k (some op) (
              All-Among (pending q) λ v m e.
                let (found, status) = pending-found v q w m in
                let same : some v ≡ some op = sym found ∙ ap (λ i. get i q) e ∙ h in
                cc (same, f, (is_pending_iff v).1 status)))
      ]

  pub get-round-none :
      (ack : SyncOperation → Bool) (q : SyncQueue) (k : IdempotencyKey)
      → IsWf q
      → get k q ≡ none
      → get k (round ack q) ≡ none
  unfolding round
  get-round-none ack q k w h =
      run-refines (map (answer ack) (pending q)) q k
      ∙ ap (advance_all (map (answer ack) (pending q)) k) h
      ∙ answers_other ack (pending q) k none (
          All-Among (pending q) λ v m e.
            let (found, _) = pending-found v q w m in
            let same : some v ≡ none = sym found ∙ ap (λ i. get i q) e ∙ h in cc)

  -- An operation that is still pending after a round has failed once more, below the ceiling.
  pub answered-pending :
      (ack : SyncOperation → Bool) (op : SyncOperation)
      → op.status ≡ Operation.pending
      → op.attempts + 1 < u32_modulus
      → (answered ack op).status ≡ Operation.pending
      → ((answered ack op).attempts ≡ op.attempts + 1) × (op.attempts + 1 < policy.max_attempts)
  unfolding answered failed Retry.decide is_pending
  answered-pending ack op p b h = let e = mod-eq_of_lt b in ground (arith, e)

  pub answered_was_pending :
      (ack : SyncOperation → Bool) (op : SyncOperation)
      → (answered ack op).status ≡ Operation.pending
      → op.status ≡ Operation.pending
  unfolding answered
  answered_was_pending ack op h = elim (Bool-cases (is_pending op)) [
    | inl t ↦ (is_pending_iff op).0 t
    | inr f ↦ rw f at h
  ]
