-- ===== src/Tests/Gates.antt =====
-- The gates on the dev account.
use development_kit.Prelude.{
  Str, codes, Option, none, some, ◌≡◌, refl, ◌↔◌, ok, str_eq, if◌then◌else◌,
}
use development_kit.Prelude.Order.{str_cmp}
use development_kit.TreeMap
use development_kit.Text.{split_once, trim, eq_ignore_ascii_case}
use development_kit.Shared.Entitlements.{allows, value_allows}
use development_kit.Shared.FeatureKey.{as_str, cloud_sync}
use development_kit.Api.Http.{StatusCode}
use development_kit.Api.Principal.{Principal, owner, resolve_principal, bearer_token}
use development_kit.Api.Accounts.{in_memory, dev_seed, read, write}
use development_kit.Api.Entitlement.{
  resolve_entitlements, granted, access, within_period, plan_features,
}
use development_kit.Shared.Plan
use development_kit.Shared.Plan.{pro}
use development_kit.Api.Billing.{
  BillingState, mock_provider, create_checkout, authenticate, map_err,
}
use development_kit.Api.Billing.Caller.{IsOwnSession, create_checkout-IsOwnSession}
use development_kit.Api.Gates.{
  FeatureGateState, parse_feature_key, find_key, authenticated_gate, get_me_entitlements, gate_for,
  verdict, require_feature,
}
use development_kit.Api.Gates.Keys.{parse_feature_key_iff}
use development_kit.Api.Gates.Authority.{
  IsEntitled, authenticated_gate-IsEntitled, local_verdict, authenticated_gate-decide_feature,
}

abbrev pub alice : Principal
alice = record {
  user_id = codes "user_alice";
  email = codes "alice@example.com";
  account_id = codes "acct_acme";
  account_name = codes "Acme";
  role = owner;
}

abbrev pub gate : FeatureGateState in_memory
gate = record {
  principals = λ t. if str_eq t (codes "tok_alice") then some alice else none;
  accounts = dev_seed;
}

abbrev pub bearer : Option Str
bearer = some (codes "Bearer tok_alice")

granted_sync : authenticated_gate in_memory gate (codes "cloud_sync") bearer 100 ≡ StatusCode.ok
unfolding authenticated_gate parse_feature_key find_key str_eq as_str resolve_principal bearer_token
    split_once eq_ignore_ascii_case trim gate_for read TreeMap.get dev_seed TreeMap.insert str_cmp
    verdict require_feature write access granted plan_features resolve_entitlements within_period
    allows value_allows
granted_sync = refl

parse_feature_key_iff_example :
    (parse_feature_key (codes "cloud_sync") ≡ some cloud_sync)
    ↔ (codes "cloud_sync" ≡ as_str cloud_sync)
parse_feature_key_iff_example = parse_feature_key_iff (codes "cloud_sync") cloud_sync

authenticated_gate-IsEntitled_example : IsEntitled in_memory gate (codes "cloud_sync") bearer 100
authenticated_gate-IsEntitled_example =
    authenticated_gate-IsEntitled in_memory gate (codes "cloud_sync") bearer 100 granted_sync

authenticated_gate-decide_feature_example :
    authenticated_gate in_memory gate (as_str cloud_sync) bearer 100
    ≡ local_verdict in_memory (get_me_entitlements in_memory gate bearer 100) cloud_sync
authenticated_gate-decide_feature_example =
    authenticated_gate-decide_feature in_memory gate cloud_sync bearer 100

abbrev billing : BillingState
billing = record { principals = gate.principals; provider = mock_provider }

abbrev checkout_url : Str
checkout_url = codes "https://checkout.stripe.com/c/pay/mock_acct_acme_pro"

checkout : create_checkout billing bearer pro ≡ ok checkout_url
unfolding create_checkout authenticate map_err resolve_principal bearer_token split_once
    eq_ignore_ascii_case trim str_eq Plan.as_str
checkout = refl

create_checkout-IsOwnSession_example :
    IsOwnSession billing bearer (λ id. mock_provider.create_checkout_session id pro) checkout_url
create_checkout-IsOwnSession_example =
    create_checkout-IsOwnSession billing bearer pro checkout_url checkout
