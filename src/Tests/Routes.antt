-- ===== src/Tests/Routes.antt =====
-- A checkout for the dev account, and what the dev caller is answered afterwards.
use development_kit.Prelude.{
  Str, codes, Option, none, some, ◌≡◌, refl, [], ◌∷◌, false, ok, str_eq, if◌then◌else◌,
}
use development_kit.Text.{
  split_once, trim, trim_start, trim_end, is_whitespace, eq_ignore_ascii_case,
}
use development_kit.Shared.FeatureKey.{api_access}
use development_kit.Shared.Plan.{pro}
use development_kit.Api.Principal.{resolve_principal, bearer_token}
use development_kit.Api.Accounts.{in_memory}
use development_kit.Api.Webhook.Event.{
  Json, BillingEvent, activate, target, parse_event, derive_action, account_id_of, plan_of,
  parse_plan, metadata,
}
use development_kit.Api.Webhook.Signature.{mock_verify}
use development_kit.Api.Webhook.Ingest.{contains}
use development_kit.Api.Webhook.Ingest.Branches.{IsAccepted}
use development_kit.Api.App.{mock, verify_with, resolve, with_token, dev_principals, dev_principal}
use development_kit.Api.App.Routes.{
  dev_app_state, deliver, health, publish, serve, serve_each, verify_now, arriving,
}
use development_kit.Api.App.Reconciled.{IsServed, serve_each-IsServed}
use development_kit.Tests.Webhook.{Value, null, text, object, member, as_str, as_u64}
use development_kit.Tests.Signature.{toy_hmac}

abbrev checkout : Value
checkout = object (codes "id") (text (codes "evt_1")) (
    object (codes "type") (text (codes "checkout.session.completed")) (
      object (codes "data")
        (object (codes "object")
          (object (codes "client_reference_id") (text (codes "acct_acme"))
            (object (codes "metadata") (object (codes "plan") (text (codes "pro")) null) null))
          null)
        null))

abbrev json : Json
json = record {
  Value = Value;
  from_slice = λ body. if str_eq body (codes "checkout") then some checkout else none;
  member = member;
  as_str = as_str;
  as_u64 = as_u64;
  null = null;
}

abbrev signature : Option Str
signature = some (codes "mock_valid_signature")

abbrev event : BillingEvent
event = record { id = codes "evt_1"; action = some (activate (codes "acct_acme") pro) }

abbrev bearer : Option Str
bearer = some (codes "Bearer tok_alice")

delivery-IsAccepted :
    IsAccepted json in_memory
      (verify_now json toy_hmac mock)
      (arriving json toy_hmac mock 100 (codes "checkout") signature)
      event
unfolding parse_event derive_action account_id_of plan_of parse_plan metadata str_eq verify_with
    mock_verify
delivery-IsAccepted = record { verified = refl; parsed = refl }

unseen : contains event.id dev_app_state.processed ≡ false
unfolding contains dev_app_state
unseen = refl

known : resolve_principal (resolve dev_principals) bearer ≡ ok dev_principal
unfolding resolve_principal bearer_token split_once eq_ignore_ascii_case trim trim_start trim_end
    is_whitespace resolve dev_principals with_token str_eq
known = refl

own_account : dev_principal.account_id ≡ (target (activate (codes "acct_acme") pro)).0
unfolding target
own_account = refl

serve_each-IsServed_example :
    IsServed json toy_hmac mock
      (serve_each json toy_hmac mock
        ((110, health) ∷ (120, publish none) ∷ [])
        (serve json toy_hmac mock 100 (deliver (codes "checkout") signature) dev_app_state).0)
      bearer
      dev_principal
      (target (activate (codes "acct_acme") pro)).1
      api_access
      200
serve_each-IsServed_example =
    serve_each-IsServed json toy_hmac mock (codes "checkout") signature event
      (activate (codes "acct_acme") pro) 100 dev_app_state
      ((110, health) ∷ (120, publish none) ∷ []) bearer dev_principal api_access 200
      delivery-IsAccepted refl unseen (tt, (tt, tt)) known own_account
