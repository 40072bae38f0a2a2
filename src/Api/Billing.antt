-- ===== src/Api/Billing.antt =====
-- services/api/src/billing.rs and me.rs: the routes that only need the caller. The provider of
-- checkout and portal pages is a trait, so it enters as a record of its two operations.
pub mod Caller
use development_kit.Prelude.{Str, codes, Option, Result, ok, err, ◌>>=◌, ◌++◌}
use development_kit.Shared.Plan.{PlanTier, as_str}
use development_kit.Api.Http.{StatusCode, unauthorized, service_unavailable}
use development_kit.Api.Principal.{Principal, Role, resolve_principal}

pub data BillingError : Type 0 where
  not_configured : BillingError

-- `BillingProvider`; the sessions are their URLs.
pub record BillingProvider : Type 0 where
  pub create_checkout_session : Str → PlanTier → Result BillingError Str
  pub create_portal_session : Str → Result BillingError Str

abbrev pub mock_provider : BillingProvider
mock_provider = record {
  create_checkout_session = λ account_id plan. ok (
      codes "https://checkout.stripe.com/c/pay/mock_"
      ++ (account_id ++ (codes "_" ++ as_str plan)));
  create_portal_session =
      λ account_id. ok (codes "https://billing.stripe.com/p/session/mock_" ++ account_id);
}

abbrev pub stripe_provider : BillingProvider
stripe_provider = record {
  create_checkout_session = λ account_id plan. err not_configured;
  create_portal_session = λ account_id. err not_configured;
}

pub record BillingState : Type 0 where
  pub principals : Str → Option Principal
  pub provider : BillingProvider

unfoldable pub authenticate : BillingState → Option Str → Result StatusCode Principal
authenticate state auth_header = elim (resolve_principal state.principals auth_header) [
  | ok p ↦ ok p
  | err e ↦ err unauthorized
]

unfoldable pub billing_status : BillingError → StatusCode
billing_status not_configured = service_unavailable

unfoldable pub map_err : Result BillingError Str → Result StatusCode Str
map_err (ok url) = ok url
map_err (err e) = err (billing_status e)

unfoldable pub create_checkout : BillingState → Option Str → PlanTier → Result StatusCode Str
create_checkout state auth_header plan = do
  principal ← authenticate state auth_header
  map_err (state.provider.create_checkout_session principal.account_id plan)

unfoldable pub create_portal : BillingState → Option Str → Result StatusCode Str
create_portal state auth_header = do
  principal ← authenticate state auth_header
  map_err (state.provider.create_portal_session principal.account_id)

pub record UserView : Type 0 where
  pub id : Str
  pub email : Str

pub record AccountView : Type 0 where
  pub id : Str
  pub name : Str

pub record MembershipView : Type 0 where
  pub role : Role

pub record MeResponse : Type 0 where
  pub user : UserView
  pub account : AccountView
  pub membership : MembershipView

-- `From<Principal>`.
unfoldable pub me_response : Principal → MeResponse
me_response p = record {
  user = record { id = p.user_id; email = p.email };
  account = record { id = p.account_id; name = p.account_name };
  membership = record { role = p.role };
}

unfoldable pub get_me : (Str → Option Principal) → Option Str → Result StatusCode MeResponse
get_me principals auth_header = elim (resolve_principal principals auth_header) [
  | ok principal ↦ ok (me_response principal)
  | err e ↦ err unauthorized
]
