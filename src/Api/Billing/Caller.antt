-- ===== src/Api/Billing/Caller.antt =====
-- A billing page is only ever minted for the caller's own account.
use development_kit.Prelude.{Str, Option, ◌≡◌, arith, Result, ok, >>=-eq-ok}
use development_kit.Shared.Plan.{PlanTier}
use development_kit.Api.Principal.{Principal, resolve_principal}
use development_kit.Api.Billing.{BillingError, BillingState, authenticate, map_err, create_checkout}

-- The caller authenticates, and the URL is what the provider mints for the caller's account.
pub record IsOwnSession (state : BillingState) (header : Option Str)
    (mint : Str → Result BillingError Str) (url : Str) : Type 0 where
  pub principal : Principal
  pub authenticated : resolve_principal state.principals header ≡ ok principal
  pub minted : mint principal.account_id ≡ ok url

authenticate-eq-ok :
    (state : BillingState) (header : Option Str) (p : Principal)
    → authenticate state header ≡ ok p
    → resolve_principal state.principals header ≡ ok p
unfolding authenticate
authenticate-eq-ok state header p h = ground (arith, h)

map_err-eq-ok : (r : Result BillingError Str) (url : Str) → map_err r ≡ ok url → r ≡ ok url
unfolding map_err
map_err-eq-ok r url h = ground (arith, h)

-- A checkout URL is returned only to a caller who authenticates, and it is the one that the
-- provider mints for that caller's own account and the requested plan.
pub create_checkout-IsOwnSession :
    (state : BillingState) (header : Option Str) (plan : PlanTier) (url : Str)
    → create_checkout state header plan ≡ ok url
    → IsOwnSession state header (λ id. state.provider.create_checkout_session id plan) url
unfolding create_checkout
create_checkout-IsOwnSession state header plan url h =
    let (p, a, m) = >>=-eq-ok (authenticate state header) _ h in
    record {
      principal = p;
      authenticated = authenticate-eq-ok state header p a;
      minted = map_err-eq-ok (state.provider.create_checkout_session p.account_id plan) url m;
    }
