-- ===== src/Tests/Entitlements.antt =====
-- The entitlement theorems on a canceled team account.
use development_kit.Prelude.{codes, some, ◌≡◌, true, false}
use development_kit.TreeMap
use development_kit.Shared.FeatureKey.{feature_key_ord, cloud_sync, team_members}
use development_kit.Shared.Plan.{team, canceled}
use development_kit.Shared.Entitlements.{allows}
use development_kit.Api.Entitlement.{AccountState, plan_features, resolve_entitlements}
use development_kit.Api.Entitlement.Policy.{entitled, allows-resolve_entitlements}
use development_kit.Api.Entitlement.Tiers.{AtMost, IsSafe, resolve_entitlements_bounds}

abbrev leaving : AccountState
leaving = record { plan = team; status = canceled; trial = false; current_period_end = some 1000 }

allows-resolve_entitlements_example :
    allows (resolve_entitlements (codes "acct") leaving 999) cloud_sync
    ≡ entitled cloud_sync leaving 999
allows-resolve_entitlements_example =
    allows-resolve_entitlements (codes "acct") leaving 999 cloud_sync

still_allowed : allows (resolve_entitlements (codes "acct") leaving 999) cloud_sync ≡ true
still_allowed = allows-resolve_entitlements_example

resolve_entitlements_bounds_example :
    AtMost
      (TreeMap.get team_members (resolve_entitlements (codes "acct") leaving 2000).features)
      (TreeMap.get team_members (plan_features leaving.plan))
    × IsSafe (TreeMap.get team_members (resolve_entitlements (codes "acct") leaving 2000).features)
resolve_entitlements_bounds_example =
    resolve_entitlements_bounds (codes "acct") leaving 2000 team_members
