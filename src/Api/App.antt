-- ===== src/Api/App.antt =====
-- services/api/src/main.rs, `app` of services/api/src/lib.rs and services/api/src/store.rs: what the
-- environment makes of the server, and the principals of the dev server.
pub mod Configured
pub mod Routes
pub mod Reconciled
use development_kit.Prelude.{
  ℕ, Str, codes, Option, none, some, Bool, true, false, List, [], ◌∷◌, length, ◌==◌, is_empty,
  str_eq, Result, ok, err, if◌then◌else◌,
}
use development_kit.Text.{trim}
use development_kit.Api.Principal.{Principal, owner}
use development_kit.Api.Webhook.Event.{WebhookError}
use development_kit.Api.Webhook.Signature.{
  Hmac, StripeWebhookVerifier, default_timestamp_tolerance_secs, decode_pairs, mock_verify,
  verify_at,
}

-- `InMemoryPrincipalStore`: the map, the latest binding of a token first.
abbrev pub InMemoryPrincipalStore : Type 0
InMemoryPrincipalStore = List (Str × Principal)

unfoldable pub with_token : InMemoryPrincipalStore → Str → Principal → InMemoryPrincipalStore
with_token store token principal = (token, principal) ∷ store

unfoldable pub resolve : InMemoryPrincipalStore → Str → Option Principal
resolve [] token = none
resolve ((t, principal) ∷ store) token =
    let rest = resolve store token in if str_eq t token then some principal else rest

abbrev pub dev_token : Str
dev_token = codes "tok_alice"

abbrev pub dev_principal : Principal
dev_principal = record {
  user_id = codes "user_alice";
  email = codes "alice@example.com";
  account_id = codes "acct_acme";
  account_name = codes "Acme";
  role = owner;
}

unfoldable pub dev_principals : InMemoryPrincipalStore
unfolding with_token
dev_principals = with_token [] dev_token dev_principal

unfoldable pub normalize_webhook_secret : Option Str → Option Str
unfolding trim
normalize_webhook_secret none = none
normalize_webhook_secret (some raw) = if is_empty (trim raw) then none else some (trim raw)

-- The loop takes 32 pairs of digits, as the length is 64.
unfoldable pub decode_hex_32 : Str → Option Str
unfolding trim decode_pairs
decode_hex_32 s = if length (trim s) == 64 then decode_pairs (trim s) else none

-- `LicenseSigner::from_secret_bytes` takes exactly 32 bytes; the signer is its seed.
unfoldable pub from_secret_bytes : Str → Option Str
from_secret_bytes secret = if length secret == 32 then some secret else none

-- Unset, a panic of the process, or the seed of the signer.
pub data Signer : Type 0 where
  unset panicked : Signer
  loaded : Str → Signer

unfoldable pub load_signer : Option Str → Signer
unfolding decode_hex_32 from_secret_bytes
load_signer none = unset
load_signer (some hex) = elim (decode_hex_32 hex) [
  | none ↦ panicked
  | some seed ↦ elim (from_secret_bytes seed) [ none ↦ panicked | some s ↦ loaded s ]
]

pub data WebhookVerifier : Type 0 where
  mock : WebhookVerifier
  stripe : StripeWebhookVerifier → WebhookVerifier

-- `StripeWebhookVerifier::new`.
unfoldable pub stripe_verifier : Str → StripeWebhookVerifier
stripe_verifier secret = record {
  signing_secret = secret;
  tolerance_secs = default_timestamp_tolerance_secs;
}

-- The parts of the router that the environment decides: the verifier of the webhook, and the signer
-- of `/license/refresh`, absent where the route is not mounted.
pub record Router : Type 0 where
  pub verifier : WebhookVerifier
  pub license : Option Str

-- `app` or `app_with_stripe_secret`.
unfoldable pub base_app : Option Str → WebhookVerifier
unfolding stripe_verifier
base_app (some secret) = stripe (stripe_verifier secret)
base_app none = mock

-- The `match` on the signer.
unfoldable pub assemble : WebhookVerifier → Signer → Option Router
assemble base unset = some (record { verifier = base; license = none })
assemble base (loaded seed) = some (record { verifier = base; license = some seed })
assemble base panicked = none

-- From the two variables of the environment; none where the process panics.
unfoldable pub build_router : Option Str → Option Str → Option Router
unfolding normalize_webhook_secret load_signer base_app assemble
build_router webhook_secret signing_key =
    assemble (base_app (normalize_webhook_secret webhook_secret)) (load_signer signing_key)

-- The verifier that the webhook's handler calls.
module _ (hmac : Hmac) where
  unfoldable pub verify_with :
      WebhookVerifier → Str → Option Str → ℕ → Result WebhookError (Unit {0})
  unfolding mock_verify verify_at
  verify_with mock payload signature now = mock_verify payload signature
  verify_with (stripe v) payload signature now = verify_at hmac v payload signature now
