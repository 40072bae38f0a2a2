-- ===== src/Api/Entitlement/Tiers.antt =====
-- The tier table: complete, ascending, and within the numbers that the desktop can represent.
use development_kit.Prelude.{
  ℕ, ◌≤◌, ◌<◌, ◌^◌, ◌≡◌, Str, Option, some, Bool, true, false, arith, refl,
}
use development_kit.TreeMap
use development_kit.Shared.FeatureKey.{
  FeatureKey, feature_key_ord, export_pdf, cloud_sync, advanced_reports, team_members, max_projects,
  priority_support, api_access,
}
use development_kit.Shared.Plan.{PlanTier, rank, starter, pro, team, enterprise}
use development_kit.Shared.Entitlements.{FeatureValue, enabled, limit}
use development_kit.Api.Entitlement.{
  AccountState, Access, full, degraded, granted, plan_features, degrade, resolve_entitlements,
  unlimited,
}

-- Both values are there, are of one kind, and the first grants no more than the second.
abbrev pub AtMost : Option FeatureValue → Option FeatureValue → Type 0
AtMost (some (enabled a)) (some (enabled b)) = a ≡ true → b ≡ true
AtMost (some (limit m)) (some (limit n)) = m ≤ n
AtMost _ _ = ⊥

-- A limit stays within JavaScript's safe integers.
abbrev pub IsSafe : Option FeatureValue → Type 0
IsSafe (some (limit n)) = n < 2 ^ 53
IsSafe _ = Unit

-- The table as a function of the tier and the key.
abbrev switch : Bool → Option FeatureValue
switch b = some (enabled b)

abbrev cap_at : ℕ → Option FeatureValue
cap_at n = some (limit n)

abbrev column : FeatureKey → PlanTier → Option FeatureValue
column max_projects PlanTier.free = cap_at 3
column max_projects starter = cap_at 25
column max_projects pro = cap_at 100
column max_projects team = cap_at 1000
column max_projects enterprise = cap_at unlimited
column team_members PlanTier.free = cap_at 0
column team_members starter = cap_at 1
column team_members pro = cap_at 5
column team_members team = cap_at 50
column team_members enterprise = cap_at unlimited
column export_pdf PlanTier.free = switch false
column export_pdf _ = switch true
column cloud_sync PlanTier.free = switch false
column cloud_sync _ = switch true
column _ PlanTier.free = switch false
column _ starter = switch false
column _ _ = switch true

get-plan_features :
    (key : FeatureKey) (p : PlanTier) → TreeMap.get key (plan_features p) ≡ column key p
unfolding plan_features TreeMap.get TreeMap.insert
get-plan_features export_pdf PlanTier.free = refl
get-plan_features export_pdf starter = refl
get-plan_features cloud_sync PlanTier.free = refl
get-plan_features cloud_sync starter = refl
get-plan_features advanced_reports PlanTier.free = refl
get-plan_features advanced_reports starter = refl
get-plan_features team_members PlanTier.free = refl
get-plan_features max_projects PlanTier.free = refl
get-plan_features priority_support PlanTier.free = refl
get-plan_features priority_support starter = refl
get-plan_features api_access PlanTier.free = refl
get-plan_features api_access starter = refl
get-plan_features _ _ = refl

column_ascends :
    (key : FeatureKey) (p p' : PlanTier) → rank p ≤ rank p' → AtMost (column key p) (column key p')
column_ascends key p p' h = ground arith

-- Every key has a value in every tier, and a higher tier grants at least what a lower one does.
pub plan_features_ascend :
    (key : FeatureKey) (p p' : PlanTier)
    → rank p ≤ rank p'
    → AtMost (TreeMap.get key (plan_features p)) (TreeMap.get key (plan_features p'))
plan_features_ascend key p p' h =
    rw (get-plan_features key p, get-plan_features key p') (column_ascends key p p' h)

degraded_value :
    (key : FeatureKey) (p : PlanTier)
    → AtMost (TreeMap.get key (granted degraded p)) (column key p)
      × IsSafe (TreeMap.get key (granted degraded p))
unfolding granted degrade plan_features TreeMap.get TreeMap.insert
degraded_value export_pdf PlanTier.free = ground arith
degraded_value export_pdf starter = ground arith
degraded_value cloud_sync PlanTier.free = ground arith
degraded_value advanced_reports PlanTier.free = ground arith
degraded_value team_members PlanTier.free = ground arith
degraded_value max_projects PlanTier.free = ground arith
degraded_value priority_support PlanTier.free = ground arith
degraded_value api_access PlanTier.free = ground arith
degraded_value _ _ = ground arith

column-IsSafe : (key : FeatureKey) (p : PlanTier) → IsSafe (column key p)
column-IsSafe key p = ground arith

granted_value :
    (a : Access) (key : FeatureKey) (p : PlanTier)
    → AtMost (TreeMap.get key (granted a p)) (column key p) × IsSafe (TreeMap.get key (granted a p))
granted_value full key p =
    unfold granted in
    rw (get-plan_features key p) (column_ascends key p p (omega arith), column-IsSafe key p)
granted_value degraded key p = degraded_value key p
granted_value Access.free key p =
    unfold granted in
    rw (get-plan_features key PlanTier.free)
      (column_ascends key PlanTier.free p (omega arith), column-IsSafe key PlanTier.free)

-- Whatever the status and the time, every key resolves to a value of its own kind, which grants no
-- more than the full set of the account's plan, and every limit is below 2 ^ 53.
pub resolve_entitlements_bounds :
    (id : Str) (state : AccountState) (now : ℕ) (key : FeatureKey)
    → AtMost
        (TreeMap.get key (resolve_entitlements id state now).features)
        (TreeMap.get key (plan_features state.plan))
      × IsSafe (TreeMap.get key (resolve_entitlements id state now).features)
unfolding resolve_entitlements
resolve_entitlements_bounds id state now key =
    rw (get-plan_features key state.plan) (granted_value _ key state.plan)
