-- ===== src/Shared/Plan.antt =====
-- crates/shared/src/plan.rs: plan tiers and subscription statuses.
use development_kit.Prelude.{ℕ, Str, codes, Bool, true, false}

pub data PlanTier : Type 0 where
  free starter pro team enterprise : PlanTier

unfoldable pub as_str : PlanTier → Str
as_str PlanTier.free = codes "free"
as_str starter = codes "starter"
as_str pro = codes "pro"
as_str team = codes "team"
as_str enterprise = codes "enterprise"

unfoldable pub is_paid : PlanTier → Bool
is_paid PlanTier.free = false
is_paid _ = true

-- The position of a tier in its declaration, by which the derived order compares tiers.
abbrev pub rank : PlanTier → ℕ
rank PlanTier.free = 0
rank starter = 1
rank pro = 2
rank team = 3
rank enterprise = 4

pub data SubscriptionStatus : Type 0 where
  free trialing active past_due canceled paused incomplete : SubscriptionStatus

unfoldable pub status_str : SubscriptionStatus → Str
status_str SubscriptionStatus.free = codes "free"
status_str trialing = codes "trialing"
status_str active = codes "active"
status_str past_due = codes "past_due"
status_str canceled = codes "canceled"
status_str paused = codes "paused"
status_str incomplete = codes "incomplete"

unfoldable pub grants_paid_access : SubscriptionStatus → Bool
grants_paid_access trialing = true
grants_paid_access active = true
grants_paid_access past_due = true
grants_paid_access _ = false
