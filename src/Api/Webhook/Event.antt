-- ===== src/Api/Webhook/Event.antt =====
-- Event parsing and the reconcile action (webhook.rs). The JSON parser is a library, so it enters
-- as the interface `Json`: values with member access and the two conversions used.
use development_kit.Prelude.{
  ℕ, Str, codes, Option, none, some, Result, ok, ◌>>=◌, ok_or, and_then, or_else, unwrap_or, str_eq,
  if◌then◌else◌, ◌||◌, false,
}
use development_kit.Shared.Plan.{
  PlanTier, SubscriptionStatus, starter, pro, team, enterprise, trialing, active, past_due,
  canceled, paused, incomplete,
}
use development_kit.Api.Entitlement.{AccountState}

pub data WebhookError : Type 0 where
  invalid_signature malformed_payload : WebhookError

unfoldable pub parse_plan : Str → Option PlanTier
parse_plan plan =
    if str_eq plan (codes "free")
    then some PlanTier.free
    else if str_eq plan (codes "starter")
    then some starter
    else if str_eq plan (codes "pro")
    then some pro
    else if str_eq plan (codes "team")
    then some team
    else if str_eq plan (codes "enterprise")
    then some enterprise
    else none

unfoldable pub parse_status : Str → Option SubscriptionStatus
parse_status status =
    if str_eq status (codes "trialing")
    then some trialing
    else if str_eq status (codes "active")
    then some active
    else if str_eq status (codes "past_due")
    then some past_due
    else if str_eq status (codes "canceled")
    then some canceled
    else if str_eq status (codes "paused")
    then some paused
    else if str_eq status (codes "incomplete")
    then some incomplete
    else if str_eq status (codes "unpaid") || str_eq status (codes "incomplete_expired")
    then some canceled
    else none

pub data ReconcileAction : Type 0 where
  activate : Str → PlanTier → ReconcileAction
  set_subscription : Str → PlanTier → SubscriptionStatus → Option ℕ → ReconcileAction

pub record BillingEvent : Type 0 where
  pub id : Str
  pub action : Option ReconcileAction

-- The account that an action writes, and the state that it writes there.
unfoldable pub target : ReconcileAction → Str × AccountState
target (activate account_id plan) =
    (account_id, record { plan = plan; status = active; trial = false; current_period_end = none })
target (set_subscription account_id plan status end) =
    (account_id, record { plan = plan; status = status; trial = false; current_period_end = end })

-- `serde_json`: `from_slice`, `Value::get`, `as_str`, `as_u64` and `Value::Null`.
pub record Json : Type 1 where
  pub Value : Type 0
  pub from_slice : Str → Option Value
  pub member : Value → Str → Option Value
  pub as_str : Value → Option Str
  pub as_u64 : Value → Option ℕ
  pub null : Value

module _ (json : Json) where
  open json use {Value, from_slice, member, as_str, as_u64, null}

  -- `.get("metadata").and_then(|m| m.get(name)).and_then(Value::as_str)`.
  unfoldable pub metadata : Str → Value → Option Str
  metadata name object =
      and_then (and_then (member object (codes "metadata")) (λ m. member m name)) as_str

  unfoldable pub account_id_of : Value → Option Str
  account_id_of object =
      or_else (and_then (member object (codes "client_reference_id")) as_str)
        (metadata (codes "account_id") object)

  unfoldable pub plan_of : Value → Option PlanTier
  plan_of object = and_then (metadata (codes "plan") object) parse_plan

  unfoldable pub status_of : Value → Option SubscriptionStatus
  status_of object = and_then (and_then (member object (codes "status")) as_str) parse_status

  unfoldable pub derive_action : Str → Value → Option ReconcileAction
  derive_action event_type object =
      if str_eq event_type (codes "checkout.session.completed")
      then and_then (account_id_of object)
          (λ account_id. and_then (plan_of object) (λ plan. some (activate account_id plan)))
      else if str_eq event_type (codes "customer.subscription.updated")
          || str_eq event_type (codes "customer.subscription.deleted")
      then and_then (account_id_of object) (λ account_id. and_then (plan_of object) (λ plan.
        and_then (status_of object) (λ status. some (
          set_subscription account_id plan status
            (and_then (member object (codes "current_period_end")) as_u64)))))
      else none

  unfoldable pub parse_event : Str → Result WebhookError BillingEvent
  parse_event payload = do
    root ← ok_or (from_slice payload) malformed_payload
    id ← ok_or (and_then (member root (codes "id")) as_str) malformed_payload
    event_type ← ok_or (and_then (member root (codes "type")) as_str) malformed_payload
    let object =
        unwrap_or (and_then (member root (codes "data")) (λ d. member d (codes "object"))) null
    ok (record { id = id; action = derive_action event_type object })
