-- ===== src/Shared/SyncQueue/Queue/Failures.antt =====
-- A run of failed sends dead-letters an operation at the ceiling of its policy, and not before.
use native.Mathlib.Nat.{mod-eq_of_lt, zero-add}
use development_kit.Prelude.{
  u32_modulus, ℕ, zero, suc, ◌+◌, ◌≤◌, ◌<◌, ◌≡◌, refl, ◌∙◌, ap, arith, some, List, [], ◌∷◌, leb,
  if◌then◌else◌, str_eq_refl,
}
use development_kit.Shared.SyncQueue.Operation.{
  SyncOperation, IdempotencyKey, pending, dead_lettered,
}
use development_kit.Shared.SyncQueue.Retry
use development_kit.Shared.SyncQueue.Retry.{RetryPolicy}
use development_kit.Shared.SyncQueue.Queue.{SyncQueue, get, Call, records_failure, run}
use development_kit.Shared.SyncQueue.Queue.Machine.{advance, advance_all, run-refines, failed}

abbrev pub failures : ℕ → IdempotencyKey → RetryPolicy → List Call
failures zero key policy = []
failures (suc n) key policy = records_failure key policy ∷ failures n key policy

-- The operation after `a` failures in all.
abbrev pub after_failures : RetryPolicy → ℕ → SyncOperation → SyncOperation
after_failures policy a op = record op {
  attempts = a;
  status = if leb policy.max_attempts a then dead_lettered else pending;
}

failed-after_failures :
    (policy : RetryPolicy) (a : ℕ) (op : SyncOperation)
    → a + 1 < u32_modulus
    → failed policy (after_failures policy a op) ≡ after_failures policy (suc a) op
unfolding failed Retry.decide
failed-after_failures policy a op h = rw (mod-eq_of_lt h) (ground arith)

advance-failed :
    (key : IdempotencyKey) (policy : RetryPolicy) (op : SyncOperation)
    → advance (records_failure key policy) key (some op) ≡ some (failed policy op)
unfolding advance
advance-failed key policy op = rw (str_eq_refl key) refl

advance-failures :
    (n a : ℕ) (key : IdempotencyKey) (policy : RetryPolicy) (op : SyncOperation)
    → n + a < u32_modulus
    → advance_all (failures n key policy) key (some (after_failures policy a op))
      ≡ some (after_failures policy (n + a) op)
unfolding advance_all
advance-failures zero a key policy op h = rw (zero-add a) refl
advance-failures (suc n) a key policy op h =
    ap (advance_all (failures n key policy) key) (
      advance-failed key policy (after_failures policy a op)
      ∙ ap some (failed-after_failures policy a op (omega arith)))
    ∙ advance-failures n (suc a) key policy op (omega arith)
    ∙ ap (λ i. some (after_failures policy i op)) (omega arith)

fresh-after_failures :
    (policy : RetryPolicy) (op : SyncOperation)
    → 1 ≤ policy.max_attempts
    → op.status ≡ pending
    → op.attempts ≡ 0
    → op ≡ after_failures policy 0 op
fresh-after_failures policy op h s a = ground arith

-- From a queued operation that is pending and has no attempts, and a policy that allows at least
-- one attempt, n failed sends (n below 2 ^ 32) count exactly n attempts, and the operation stays
-- pending while n < max_attempts and is dead-lettered from there on; nothing else of it changes.
pub run-failures :
    (n : ℕ) (key : IdempotencyKey) (policy : RetryPolicy) (op : SyncOperation) (q : SyncQueue)
    → n < u32_modulus
    → 1 ≤ policy.max_attempts
    → get key q ≡ some op
    → op.status ≡ pending
    → op.attempts ≡ 0
    → get key (run (failures n key policy) q) ≡ some (after_failures policy n op)
run-failures n key policy op q bound some_attempt h s a =
    run-refines (failures n key policy) q key
    ∙ ap (advance_all (failures n key policy) key)
        (h ∙ ap some (fresh-after_failures policy op some_attempt s a))
    ∙ advance-failures n 0 key policy op (omega arith)
    ∙ ap (λ i. some (after_failures policy i op)) (omega arith)
