-- ===== src/Shared/SyncQueue/Retry.antt =====
-- `RetryPolicy` of crates/shared/src/sync_queue.rs: exponential backoff on machine words.
pub mod Backoff
use development_kit.Prelude.{
  ℕ, min, leb, if◌then◌else◌, unwrap_or, u64_max, saturating_sub, saturating_mul, checked_shl,
}

pub data RetryDecision : Type 0 where
  retry_after : ℕ → RetryDecision
  give_up : RetryDecision

pub record RetryPolicy : Type 0 where
  pub max_attempts : ℕ
  pub base_delay_ms : ℕ
  pub max_delay_ms : ℕ

abbrev pub default : RetryPolicy
default = record { max_attempts = 5; base_delay_ms = 1000; max_delay_ms = 60000 }

unfoldable pub delay_ms : RetryPolicy → ℕ → ℕ
unfolding saturating_sub saturating_mul checked_shl
delay_ms p attempts_so_far =
    let exponent = saturating_sub attempts_so_far 1 in
    let factor = unwrap_or (checked_shl 1 exponent) u64_max in
    min (saturating_mul p.base_delay_ms factor) p.max_delay_ms

unfoldable pub decide : RetryPolicy → ℕ → RetryDecision
decide p attempts_so_far =
    if leb p.max_attempts attempts_so_far then give_up else retry_after (delay_ms p attempts_so_far)
