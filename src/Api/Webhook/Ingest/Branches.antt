-- ===== src/Api/Webhook/Ingest/Branches.antt =====
-- What one delivery does, on every branch of the handler.
use development_kit.Prelude.{
  ℕ, Result-cases, ◌⊎◌, Str, Option, none, some, ◌≡◌, refl, ◌∙◌, ap, arith, Result, ok, err, ◌∷◌,
  true, false, str_eq, if◌then◌else◌, inl, inr,
}
use development_kit.Api.Http.{StatusCode}
use development_kit.Api.Accounts.{AccountStateStore}
use development_kit.Api.Webhook.Event.{
  Json, WebhookError, BillingEvent, ReconcileAction, target, parse_event,
}
use development_kit.Api.Webhook.Ingest.{
  WebhookState, Delivery, contains, mark_if_new, apply_action, apply_optional, process, ingest,
}

module _ (json : Json) (store : AccountStateStore)
    (verify : ℕ → Str → Option Str → Result WebhookError (Unit {0})) where
  -- The signature verifies and the body parses.
  pub record IsAccepted (d : Delivery) (event : BillingEvent) : Type 0 where
    pub verified : verify d.received_at d.body d.signature ≡ ok tt
    pub parsed : parse_event json d.body ≡ ok event

  pub ingest-process :
      (d : Delivery) (event : BillingEvent) (s : WebhookState json store verify)
      → IsAccepted d event
      → ingest json store verify d s ≡ process json store verify event s
  unfolding ingest
  ingest-process d event s a = rw (a.verified, ingest) (rw a.parsed refl)

  -- The state that a first delivery leaves.
  abbrev pub reconciled :
      BillingEvent → WebhookState json store verify → WebhookState json store verify
  reconciled event s = record {
    accounts = apply_optional json store verify event.action s.accounts;
    processed = event.id ∷ s.processed;
  }

  pub process_seen :
      (event : BillingEvent) (s : WebhookState json store verify)
      → contains event.id s.processed ≡ true
      → process json store verify event s ≡ (s, StatusCode.ok)
  unfolding process mark_if_new
  process_seen event s h = ground arith

  pub process_new :
      (event : BillingEvent) (s : WebhookState json store verify)
      → contains event.id s.processed ≡ false
      → process json store verify event s ≡ (reconciled event s, StatusCode.ok)
  unfolding process mark_if_new
  process_new event s h = ground arith

  -- The event of a delivery that verifies and parses.
  pub accepted : Delivery → Option BillingEvent
  accepted d = elim (verify d.received_at d.body d.signature) [
    | err e ↦ none
    | ok _ ↦ elim (parse_event json d.body) [ err e ↦ none | ok event ↦ some event ]
  ]

  pub ingest_cases :
      (d : Delivery) (s : WebhookState json store verify)
      → ((accepted d ≡ none) × ((ingest json store verify d s).0 ≡ s))
        ⊎ ((e : BillingEvent) × (accepted d ≡ some e)
            × (ingest json store verify d s ≡ process json store verify e s))
  unfolding accepted ingest
  ingest_cases d s = elim (Result-cases (verify d.received_at d.body d.signature)) [
    | inr (e, h) ↦ inl (rw (h, accepted) refl, rw (h, ingest) refl)
    | inl (u, h) ↦ elim (Result-cases (parse_event json d.body)) [
      | inr (e, k) ↦ inl (rw (h, accepted) (rw k refl), rw (h, ingest) (rw k refl))
      | inl (event, k) ↦ inr (event, rw (h, accepted) (rw k refl), rw (h, ingest) (rw k refl))
    ]
  ]

  -- Read after write: once a delivery is accepted whose event is new and has an action, its
  -- account reads as the state that the action implies, and every other account reads as before.
  pub account_state-ingest :
      (d : Delivery) (event : BillingEvent) (action : ReconcileAction)
      (s : WebhookState json store verify) (j : Str)
      → IsAccepted d event
      → event.action ≡ some action
      → contains event.id s.processed ≡ false
      → store.account_state (ingest json store verify d s).0.accounts j ≡ (
          if str_eq (target action).0 j
          then some (target action).1
          else store.account_state s.accounts j)
  unfolding apply_optional apply_action
  account_state-ingest d event action s j a h new =
      ap (λ r. store.account_state r.0.accounts j)
        (ingest-process d event s a ∙ process_new event s new)
      ∙ ap (λ o. store.account_state (apply_optional json store verify o s.accounts) j) h
      ∙ store.account_state-set s.accounts (target action).0 j (target action).1
