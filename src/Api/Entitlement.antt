-- ===== src/Api/Entitlement.antt =====
-- services/api/src/entitlement.rs: billing state into entitlements.
pub mod Policy
pub mod Tiers
use development_kit.Prelude.{
  ℕ, Str, Option, none, some, Bool, true, false, ltb, List, [], ◌∷◌, if◌then◌else◌,
}
use development_kit.TreeMap
use development_kit.TreeMap.{TreeMap}
use development_kit.Shared.FeatureKey.{
  FeatureKey, feature_key_ord, export_pdf, cloud_sync, advanced_reports, team_members, max_projects,
  priority_support, api_access,
}
use development_kit.Shared.Plan.{
  PlanTier, SubscriptionStatus, starter, pro, team, enterprise, trialing, active, past_due,
  canceled, paused, incomplete,
}
use development_kit.Shared.Entitlements.{Entitlements, FeatureValue, enabled, limit}

abbrev pub unlimited : ℕ
unlimited = 9007199254740991

pub record AccountState : Type 0 where
  pub plan : PlanTier
  pub status : SubscriptionStatus
  pub trial : Bool
  pub current_period_end : Option ℕ

unfoldable pub within_period : AccountState → ℕ → Bool
within_period state now = elim state.current_period_end [ some end ↦ ltb now end | none ↦ false ]

pub data Access : Type 0 where
  full degraded free : Access

-- The `match` on the status that gives `grant`.
unfoldable pub access : SubscriptionStatus → Bool → Access
access trialing inside = full
access active inside = full
access past_due inside = degraded
access canceled inside = if inside then full else Access.free
access SubscriptionStatus.free inside = Access.free
access paused inside = Access.free
access incomplete inside = Access.free

abbrev pub Features : Type 0
Features = TreeMap FeatureKey FeatureValue

-- `f.insert` seven times, in the order of the source.
insert_all : Bool → Bool → Bool → Bool → Bool → ℕ → ℕ → Features
insert_all export sync reports support api projects members =
    TreeMap.insert team_members (limit members) (
      TreeMap.insert max_projects (limit projects) (
        TreeMap.insert api_access (enabled api) (
          TreeMap.insert priority_support (enabled support) (
            TreeMap.insert advanced_reports (enabled reports) (
              TreeMap.insert cloud_sync (enabled sync)
                (TreeMap.insert export_pdf (enabled export) TreeMap.empty))))))

unfoldable pub plan_features : PlanTier → Features
unfolding insert_all
plan_features PlanTier.free = insert_all false false false false false 3 0
plan_features starter = insert_all true true false false false 25 1
plan_features pro = insert_all true true true true true 100 5
plan_features team = insert_all true true true true true 1000 50
plan_features enterprise = insert_all true true true true true unlimited unlimited

-- `for key in [...] { features.insert(key, Enabled(false)); }`.
disable : List FeatureKey → Features → Features
disable [] features = features
disable (key ∷ keys) features = disable keys (TreeMap.insert key (enabled false) features)

unfoldable pub degrade : Features → Features
unfolding disable
degrade features =
    disable (cloud_sync ∷ advanced_reports ∷ api_access ∷ priority_support ∷ []) features

unfoldable pub granted : Access → PlanTier → Features
granted full plan = plan_features plan
granted degraded plan = degrade (plan_features plan)
granted Access.free plan = plan_features PlanTier.free

unfoldable pub resolve_entitlements : Str → AccountState → ℕ → Entitlements
unfolding granted access within_period
resolve_entitlements account_id state now = record {
  account_id = account_id;
  plan = state.plan;
  status = state.status;
  trial = state.trial;
  features = granted (access state.status (within_period state now)) state.plan;
  license_expires_at = none;
}
