-- ===== src/Api/App/Routes.antt =====
-- The routes that `app_with_webhook_verifier` (services/api/src/lib.rs) mounts, on one account store:
-- the webhook, `/me`, `/me/entitlements`, `/billing`, the feature gate, the publish route of Notes,
-- and `/health`.
use development_kit.Prelude.{ℕ, Str, Option, Result, ok, err, List, [], ◌∷◌}
use development_kit.Shared.Entitlements.{Entitlements}
use development_kit.Shared.Plan.{PlanTier}
use development_kit.Api.Billing.{
  BillingState, MeResponse, mock_provider, get_me, create_checkout, create_portal,
}
use development_kit.Api.Http.{StatusCode}
use development_kit.Api.Accounts.{Accounts, in_memory, dev_seed}
use development_kit.Api.Webhook.Event.{Json, WebhookError}
use development_kit.Api.Webhook.Signature.{Hmac}
use development_kit.Api.Webhook.Ingest.{WebhookState, Delivery, ingest}
use development_kit.Api.Gates.{FeatureGateState, authenticated_gate, get_me_entitlements}
use development_kit.Api.Products.Notes.{publish_note}
use development_kit.Api.App.{WebhookVerifier, verify_with, resolve, dev_principals}

-- What the shared handles point to: the account store and the processed events.
pub record AppState : Type 0 where
  pub accounts : Accounts
  pub processed : List Str

unfoldable pub dev_app_state : AppState
unfolding dev_seed
dev_app_state = record { accounts = dev_seed; processed = [] }

-- `dev_entitlements_state_with`, `dev_feature_gate_state` and `dev_notes_state`.
unfoldable pub dev_state : Accounts → FeatureGateState in_memory
unfolding resolve dev_principals
dev_state accounts = record { principals = resolve dev_principals; accounts = accounts }

unfoldable pub dev_billing_state : BillingState
unfolding resolve dev_principals
dev_billing_state = record { principals = resolve dev_principals; provider = mock_provider }

-- A request by its route; a header is that of the authorization.
pub data Request : Type 0 where
  deliver : Str → Option Str → Request
  me me_entitlements portal publish : Option Str → Request
  checkout : PlanTier → Option Str → Request
  gated_feature : Str → Option Str → Request
  health : Request

pub data Response : Type 0 where
  status : StatusCode → Response
  snapshot : Entitlements → Response
  caller : MeResponse → Response
  session : Str → Response

-- The response of a handler that answers with a value or a status.
unfoldable pub value_or_status {ℓ} : {A : Type ℓ} → (A → Response) → Result StatusCode A → Response
value_or_status answer (ok a) = answer a
value_or_status answer (err code) = status code

unfoldable pub acknowledgement : Result StatusCode (Unit {0}) → StatusCode
acknowledgement (ok _) = StatusCode.ok
acknowledgement (err code) = code

module _ (json : Json) (hmac : Hmac) (verifier : WebhookVerifier) where
  -- The verifier of the router, at the time of a delivery.
  abbrev pub verify_now : ℕ → Str → Option Str → Result WebhookError (Unit {0})
  verify_now now payload signature = verify_with hmac verifier payload signature now

  abbrev pub webhook_state : AppState → WebhookState json in_memory verify_now
  webhook_state s = record { accounts = s.accounts; processed = s.processed }

  abbrev pub arriving : ℕ → Str → Option Str → Delivery
  arriving now body signature = record { received_at = now; body = body; signature = signature }

  -- A webhook delivery, on the stores that the other routes read.
  unfoldable pub webhook : ℕ → Str → Option Str → AppState → AppState × Response
  unfolding ingest
  webhook now body signature s =
      let (w, code) =
        ingest json in_memory verify_now (arriving now body signature) (webhook_state s) in
      (record { accounts = w.accounts; processed = w.processed }, status code)

  -- `app_with_webhook_verifier`: one request at a time.
  unfoldable pub serve : ℕ → Request → AppState → AppState × Response
  unfolding webhook dev_state dev_billing_state value_or_status acknowledgement
  serve now (deliver body signature) s = webhook now body signature s
  serve now (me_entitlements header) s = (
    s,
    value_or_status snapshot (get_me_entitlements in_memory (dev_state s.accounts) header now),
  )
  serve now (gated_feature feature header) s =
      (s, status (authenticated_gate in_memory (dev_state s.accounts) feature header now))
  serve now (publish header) s =
      (s, status (acknowledgement (publish_note in_memory (dev_state s.accounts) header now)))
  serve now (me header) s = (s, value_or_status caller (get_me (resolve dev_principals) header))
  serve now (checkout plan header) s =
      (s, value_or_status session (create_checkout dev_billing_state header plan))
  serve now (portal header) s =
      (s, value_or_status session (create_portal dev_billing_state header))
  serve now health s = (s, status StatusCode.ok)

  -- The state after requests, each with its time.
  unfoldable pub serve_each : List (ℕ × Request) → AppState → AppState
  unfolding serve
  serve_each [] s = s
  serve_each ((now, r) ∷ rs) s = serve_each rs (serve now r s).0
