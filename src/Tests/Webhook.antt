-- ===== src/Tests/Webhook.antt =====
-- The webhook theorems on a checkout that is delivered twice.
use development_kit.Prelude.{
  ltb, ◌&&◌, is_ok, ℕ, Str, codes, Option, none, some, ◌≡◌, refl, Result, ok, err, [], ◌∷◌, false,
  str_eq, if◌then◌else◌,
}
use development_kit.Prelude.Order.{str_ord}
use development_kit.TreeMap
use development_kit.Shared.Plan.{pro}
use development_kit.Api.Http.{StatusCode, bad_request}
use development_kit.Api.Accounts.{in_memory}
use development_kit.Api.Webhook.Event.{
  Json, WebhookError, invalid_signature, BillingEvent, activate, parse_event, derive_action,
  account_id_of, plan_of, parse_plan, metadata,
}
use development_kit.Api.Webhook.Ingest.{WebhookState, Delivery, contains, ingest, run}
use development_kit.Api.Webhook.Ingest.Branches.{IsAccepted}
use development_kit.Api.Webhook.Ingest.ExactlyOnce.{
  apply_events, first_deliveries, accepted_events, run_exactly_once,
}
use development_kit.Api.Webhook.Ingest.Redelivery.{ingest_redelivered}

-- A JSON value, with an object as a chain of members.
pub data Value : Type 0 where
  null : Value
  text : Str → Value
  number : ℕ → Value
  object : Str → Value → Value → Value

abbrev pub member : Value → Str → Option Value
member (object k v rest) key = if str_eq k key then some v else member rest key
member _ key = none

abbrev pub as_str : Value → Option Str
as_str (text s) = some s
as_str _ = none

abbrev pub as_u64 : Value → Option ℕ
as_u64 (number n) = some n
as_u64 _ = none

abbrev checkout : Value
checkout = object (codes "id") (text (codes "evt_1")) (
    object (codes "type") (text (codes "checkout.session.completed")) (
      object (codes "data")
        (object (codes "object")
          (object (codes "client_reference_id") (text (codes "acct"))
            (object (codes "metadata") (object (codes "plan") (text (codes "pro")) null) null))
          null)
        null))

abbrev from_slice : Str → Option Value
from_slice body = if str_eq body (codes "checkout") then some checkout else none

abbrev toy : Json
toy = record {
  Value = Value;
  from_slice = from_slice;
  member = member;
  as_str = as_str;
  as_u64 = as_u64;
  null = null;
}

-- A signature is good before the time 400.
abbrev verifier : ℕ → Str → Option Str → Result WebhookError (Unit {0})
verifier now body none = err invalid_signature
verifier now body (some s) =
    if ltb now 400 && str_eq s (codes "good") then ok tt else err invalid_signature

abbrev signed : Delivery
signed = record { received_at = 100; body = codes "checkout"; signature = some (codes "good") }

abbrev stale : Delivery
stale = record { received_at = 900; body = codes "checkout"; signature = some (codes "good") }

abbrev forged : Delivery
forged = record { received_at = 200; body = codes "checkout"; signature = none }

abbrev started : WebhookState toy in_memory verifier
started = record { accounts = TreeMap.empty; processed = [] }

abbrev event : BillingEvent
event = record { id = codes "evt_1"; action = some (activate (codes "acct") pro) }

signed-IsAccepted : IsAccepted toy in_memory verifier signed event
unfolding parse_event derive_action account_id_of plan_of parse_plan metadata str_eq
signed-IsAccepted = record { verified = refl; parsed = refl }

unseen : contains event.id started.processed ≡ false
unfolding contains
unseen = refl

run_exactly_once_example :
    (run toy in_memory verifier (forged ∷ signed ∷ signed ∷ []) started).accounts
    ≡ apply_events toy in_memory verifier
        (first_deliveries started.processed
          (accepted_events toy in_memory verifier (forged ∷ signed ∷ signed ∷ [])))
        started.accounts
run_exactly_once_example =
    run_exactly_once toy in_memory verifier (forged ∷ signed ∷ signed ∷ []) started

ingest_redelivered_example :
    ingest toy in_memory verifier stale
      (run toy in_memory verifier (forged ∷ []) (ingest toy in_memory verifier signed started).0)
    ≡ (
      run toy in_memory verifier (forged ∷ []) (ingest toy in_memory verifier signed started).0,
      if is_ok (verifier stale.received_at stale.body stale.signature)
          then StatusCode.ok
          else bad_request,
    )
ingest_redelivered_example =
    ingest_redelivered toy in_memory verifier signed stale (forged ∷ []) started event
      signed-IsAccepted refl
