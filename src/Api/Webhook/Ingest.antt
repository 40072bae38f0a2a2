-- ===== src/Api/Webhook/Ingest.antt =====
-- The handler of webhook.rs: verify, parse, deduplicate, reconcile, acknowledge. The processed set
-- is the list of the ids recorded so far.
pub mod Branches
pub mod ExactlyOnce
pub mod Redelivery
use development_kit.Prelude.{
  ℕ, Str, Option, none, some, Result, ok, err, List, [], ◌∷◌, Bool, true, false, any, str_eq,
  if◌then◌else◌, not,
}
use development_kit.Api.Http.{StatusCode, bad_request}
use development_kit.Api.Accounts.{AccountStateStore}
use development_kit.Api.Webhook.Event.{
  Json, WebhookError, BillingEvent, ReconcileAction, target, parse_event,
}

-- `ProcessedEventStore`.
unfoldable pub contains : Str → List Str → Bool
contains id [] = false
contains id (x ∷ seen) = if str_eq x id then true else contains id seen

unfoldable pub mark_if_new : Str → List Str → List Str × Bool
mark_if_new id seen = if contains id seen then (seen, false) else (id ∷ seen, true)

-- One request: when its handler runs, its raw body, and its signature header where there is one. The
-- verifier reads the clock, so `verify` takes that time.
pub record Delivery : Type 0 where
  pub received_at : ℕ
  pub body : Str
  pub signature : Option Str

module _ (json : Json) (store : AccountStateStore)
    (verify : ℕ → Str → Option Str → Result WebhookError (Unit {0})) where
  pub record WebhookState : Type 0 where
    pub accounts : store.State
    pub processed : List Str

  unfoldable pub apply_action : ReconcileAction → store.State → store.State
  apply_action action accounts =
      let (account_id, state) = target action in store.set_account_state accounts account_id state

  unfoldable pub apply_optional : Option ReconcileAction → store.State → store.State
  apply_optional none accounts = accounts
  apply_optional (some action) accounts = apply_action action accounts

  -- Steps 3 and 4 of the handler, for an event that was parsed.
  unfoldable pub process : BillingEvent → WebhookState → WebhookState × StatusCode
  process event s =
      let (processed, is_new) = mark_if_new event.id s.processed in
      if not is_new then (record s { processed = processed }, StatusCode.ok) else (
        record { accounts = apply_optional event.action s.accounts; processed = processed },
        StatusCode.ok,
      )

  unfoldable pub ingest : Delivery → WebhookState → WebhookState × StatusCode
  ingest d s = elim (verify d.received_at d.body d.signature) [
    | err e ↦ (s, bad_request)
    | ok _ ↦ elim (parse_event json d.body) [
      | err e ↦ (s, bad_request)
      | ok event ↦ process event s
    ]
  ]

  -- The state after a sequence of deliveries.
  unfoldable pub run : List Delivery → WebhookState → WebhookState
  run [] s = s
  run (d ∷ ds) s = run ds (ingest d s).0
