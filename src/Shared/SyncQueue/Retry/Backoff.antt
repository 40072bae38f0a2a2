-- ===== src/Shared/SyncQueue/Retry/Backoff.antt =====
-- The schedule in words is the schedule in numbers: no overflow shows through.
use native.Mathlib.Nat.{pow-suc}
use development_kit.Prelude.{
  u64_max, checked_shl, ℕ, zero, suc, ◌-◌, ◌*◌, ◌%◌, ◌^◌, ◌≤◌, ◌<◌, min, ◌≡◌, refl, ap, unwrap_or,
  ltb→lt, if◌then◌else◌, ◌⊎◌, inl, inr, arith, ltb, Bool-cases, leb,
}
use development_kit.Shared.SyncQueue.Retry.{RetryPolicy, retry_after, give_up, delay_ms, decide}

-- The policy's fields are `u64` values.
pub record IsWords (p : RetryPolicy) : Type 0 where
  pub base_bound : p.base_delay_ms ≤ u64_max
  pub max_bound : p.max_delay_ms ≤ u64_max

pow_pos : (e : ℕ) → 1 ≤ 2 ^ e
pow_pos zero = omega arith
pow_pos (suc e) = omega (arith, pow_pos e, pow-suc 2 e)

pow_mono : (d e : ℕ) → d ≤ e → 2 ^ d ≤ 2 ^ e
pow_mono zero e h = pow_pos e
pow_mono (suc d) zero h = absurd (omega arith)
pow_mono (suc d) (suc e) h = omega (arith, pow_mono d e (omega arith), pow-suc 2 d, pow-suc 2 e)

shl_small : (e : ℕ) → e < 64 → (1 * 2 ^ e) % 2 ^ 64 ≡ 2 ^ e
shl_small e h = omega (arith, pow_mono e 63 (omega arith))

le-mul_suc : (b x : ℕ) → x ≤ suc b * x
le-mul_suc b x = grind arith

-- What the saturating product cuts off lies above any cap that fits in a word.
capped_product :
    (base factor exact cap : ℕ)
    → cap ≤ u64_max
    → (factor ≡ exact) ⊎ ((factor ≡ u64_max) × (u64_max ≤ exact))
    → min (min (base * factor) u64_max) cap ≡ min (base * exact) cap
capped_product base factor exact cap h (inl e) = rw e (omega arith)
capped_product zero factor exact cap h (inr c) = omega arith
capped_product (suc base) factor exact cap h (inr (e, l)) =
    rw e (grind (arith, le-mul_suc base u64_max, le-mul_suc base exact))

factor_cases :
    (e : ℕ)
    → (unwrap_or (checked_shl 1 e) u64_max ≡ 2 ^ e)
      ⊎ ((unwrap_or (checked_shl 1 e) u64_max ≡ u64_max) × (u64_max ≤ 2 ^ e))
unfolding checked_shl
factor_cases e = elim (Bool-cases (ltb e 64)) [
  | inl h ↦ inl (rw h (shl_small e (ltb→lt e 64 h)))
  | inr h ↦ inr (rw h refl, omega (arith, pow_mono 64 e (ground (arith, h))))
]

-- While attempts are left the wait is base * 2 ^ (n - 1), capped, and after that the policy gives
-- up: neither the shift nor the product ever shows its overflow, for any `u64` base and cap and any
-- number of attempts.
pub decide_exact :
    (p : RetryPolicy) (n : ℕ)
    → IsWords p
    → decide p n ≡ (
        if leb p.max_attempts n
        then give_up
        else retry_after (min (p.base_delay_ms * 2 ^ (n - 1)) p.max_delay_ms))
unfolding decide delay_ms
decide_exact p n w =
    ap (λ d. if leb p.max_attempts n then give_up else retry_after d)
      (capped_product p.base_delay_ms _ (2 ^ (n - 1)) p.max_delay_ms w.max_bound
        (factor_cases (n - 1)))

product_mono : (base d e cap : ℕ) → d ≤ e → min (base * d) cap ≤ min (base * e) cap
product_mono base d e cap h = grind arith

-- For a policy with a `u64` base and cap, along a run of failures the waits never shrink, and none
-- exceeds the cap.
pub decide_mono :
    (p : RetryPolicy) (n m d e : ℕ)
    → IsWords p
    → n ≤ m
    → decide p n ≡ retry_after d
    → decide p m ≡ retry_after e
    → (d ≤ e) × (e ≤ p.max_delay_ms)
decide_mono p n m d e w h k l = ground (
  arith,
  decide_exact p n w,
  decide_exact p m w,
  product_mono p.base_delay_ms (2 ^ (n - 1)) (2 ^ (m - 1)) p.max_delay_ms
      (pow_mono (n - 1) (m - 1) (omega arith)),
)
