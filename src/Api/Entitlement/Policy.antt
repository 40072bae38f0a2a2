-- ===== src/Api/Entitlement/Policy.antt =====
-- The entitlement engine against its policy: a table of tiers, the grace period, the period's end.
use development_kit.Prelude.{
  ℕ, ◌≤◌, ◌≡◌, ◌∙◌, Str, Option, none, some, Bool, true, false, not, ◌&&◌, ◌||◌, leb, ltb, ◌==◌,
  refl, sym, arith,
}
use development_kit.TreeMap
use development_kit.Shared.FeatureKey.{
  FeatureKey, feature_key_ord, export_pdf, cloud_sync, advanced_reports, team_members, max_projects,
  priority_support, api_access,
}
use development_kit.Shared.Plan.{
  PlanTier, SubscriptionStatus, rank, starter, pro, team, enterprise, trialing, active, past_due,
  canceled,
}
use development_kit.Shared.Entitlements.{allows, value_allows}
use development_kit.Api.Entitlement.{
  AccountState, Access, full, degraded, access, granted, plan_features, degrade,
  resolve_entitlements,
}

-- The lowest tier that has a feature, and the features that a grace period revokes.
abbrev pub min_rank : FeatureKey → ℕ
min_rank export_pdf = 1
min_rank cloud_sync = 1
min_rank advanced_reports = 2
min_rank team_members = 1
min_rank max_projects = 0
min_rank priority_support = 2
min_rank api_access = 2

abbrev pub is_premium : FeatureKey → Bool
is_premium cloud_sync = true
is_premium advanced_reports = true
is_premium priority_support = true
is_premium api_access = true
is_premium _ = false

-- Whether the account has the full set of its plan, which its status decides, and whether it is in
-- the grace period.
abbrev pub has_full_access : SubscriptionStatus → Option ℕ → ℕ → Bool
has_full_access trialing end now = true
has_full_access active end now = true
has_full_access canceled (some end) now = ltb now end
has_full_access _ end now = false

abbrev pub in_grace : SubscriptionStatus → Bool
in_grace past_due = true
in_grace _ = false

abbrev pub entitled : FeatureKey → AccountState → ℕ → Bool
entitled key state now =
    min_rank key == 0
    || leb (min_rank key) (rank state.plan)
      && (has_full_access state.status state.current_period_end now
          || in_grace state.status && not (is_premium key))

full_lem :
    (p : PlanTier) (key : FeatureKey)
    → value_allows (TreeMap.get key (granted full p)) ≡ leb (min_rank key) (rank p)
unfolding granted plan_features TreeMap.get TreeMap.insert value_allows
full_lem PlanTier.free export_pdf = refl
full_lem starter export_pdf = refl
full_lem pro export_pdf = refl
full_lem team export_pdf = refl
full_lem enterprise export_pdf = refl
full_lem _ _ = refl

degraded_lem :
    (p : PlanTier) (key : FeatureKey)
    → value_allows (TreeMap.get key (granted degraded p))
      ≡ leb (min_rank key) (rank p) && not (is_premium key)
unfolding granted degrade plan_features TreeMap.get TreeMap.insert value_allows
degraded_lem PlanTier.free export_pdf = refl
degraded_lem starter export_pdf = refl
degraded_lem pro export_pdf = refl
degraded_lem team export_pdf = refl
degraded_lem enterprise export_pdf = refl
degraded_lem _ _ = refl

free_lem :
    (p : PlanTier) (key : FeatureKey)
    → value_allows (TreeMap.get key (granted Access.free p)) ≡ min_rank key == 0
unfolding granted plan_features TreeMap.get TreeMap.insert value_allows
free_lem p export_pdf = refl
free_lem p _ = refl

abbrev inside_period : Option ℕ → ℕ → Bool
inside_period (some end) now = ltb now end
inside_period none now = false

resolved_value :
    (id : Str) (state : AccountState) (now : ℕ) (key : FeatureKey)
    → allows (resolve_entitlements id state now) key
      ≡ value_allows (
          TreeMap.get key
            (granted (access state.status (inside_period state.current_period_end now)) state.plan))
unfolding allows resolve_entitlements
resolved_value id state now key = ground arith

policy :
    (key : FeatureKey) (p : PlanTier) (s : SubscriptionStatus) (end : Option ℕ) (now : ℕ)
    → value_allows (TreeMap.get key (granted (access s (inside_period end now)) p)) ≡ (
        min_rank key == 0
        || leb (min_rank key) (rank p)
          && (has_full_access s end now || in_grace s && not (is_premium key)))
unfolding access
policy key p s end now = ground (arith, full_lem p key, degraded_lem p key, free_lem p key)

entitled_earlier :
    (key : FeatureKey) (r : ℕ) (s : SubscriptionStatus) (end : Option ℕ) (earlier now : ℕ)
    → earlier ≤ now
    → (min_rank key == 0
        || leb (min_rank key) r
          && (has_full_access s end now || in_grace s && not (is_premium key)))
      ≡ true
    → (min_rank key == 0
        || leb (min_rank key) r
          && (has_full_access s end earlier || in_grace s && not (is_premium key)))
      ≡ true
entitled_earlier key r s end earlier now h a = ground arith

-- A feature is allowed exactly by the policy: the features of the free tier always, and the others
-- if the plan has them and the account has full access, or is past due and they are no premium
-- features. Full access is the status trialing or active, or canceled strictly before the end of the
-- period. The flag `trial` of the billing state has no part in it.
pub allows-resolve_entitlements :
    (id : Str) (state : AccountState) (now : ℕ) (key : FeatureKey)
    → allows (resolve_entitlements id state now) key ≡ entitled key state now
allows-resolve_entitlements id state now key =
    resolved_value id state now key
    ∙ policy key state.plan state.status state.current_period_end now

-- With the same billing state access is only lost over time: what is allowed at some instant was
-- allowed at every earlier one.
pub allows_earlier :
    (id : Str) (state : AccountState) (earlier now : ℕ) (key : FeatureKey)
    → earlier ≤ now
    → allows (resolve_entitlements id state now) key ≡ true
    → allows (resolve_entitlements id state earlier) key ≡ true
allows_earlier id state earlier now key h a =
    allows-resolve_entitlements id state earlier key
    ∙ entitled_earlier key (rank state.plan) state.status state.current_period_end earlier now h
        (sym (allows-resolve_entitlements id state now key) ∙ a)
