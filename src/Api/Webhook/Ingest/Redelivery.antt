-- ===== src/Api/Webhook/Ingest/Redelivery.antt =====
-- A processed id stays processed, so a redelivery is always recognised.
use development_kit.Prelude.{
  ℕ, Option, Str, ◌≡◌, refl, ◌∙◌, ap, arith, Result, Result-cases, err, is_ok, if◌then◌else◌, List,
  [], ◌∷◌, true, str_eq_refl, Bool-cases, inl, inr,
}
use development_kit.Api.Http.{StatusCode, bad_request}
use development_kit.Api.Accounts.{AccountStateStore}
use development_kit.Api.Webhook.Event.{Json, WebhookError, BillingEvent}
use development_kit.Api.Webhook.Ingest.{Delivery, contains, process, ingest, run}
use development_kit.Api.Webhook.Ingest.Branches.{
  ingest_cases, IsAccepted, ingest-process, process_seen, process_new,
}
use development_kit.Api.Webhook.Ingest.ExactlyOnce.{State}

contains-cons :
    (id x : Str) (seen : List Str) → contains id seen ≡ true → contains id (x ∷ seen) ≡ true
unfolding contains
contains-cons id x seen h = ground arith

contains-cons_self : (id : Str) (seen : List Str) → contains id (id ∷ seen) ≡ true
unfolding contains
contains-cons_self id seen = rw (str_eq_refl id) refl

module _ (json : Json) (store : AccountStateStore)
    (verify : ℕ → Str → Option Str → Result WebhookError (Unit {0})) where
  abbrev Known : Str → State json store verify → Type 0
  Known id s = contains id s.processed ≡ true

  Known-process_self :
      (e : BillingEvent) (s : State json store verify)
      → Known e.id (process json store verify e s).0
  Known-process_self e s = elim (Bool-cases (contains e.id s.processed)) [
    | inl seen ↦
        ap (λ r. contains e.id r.0.processed) (process_seen json store verify e s seen) ∙ seen
    | inr new ↦
        ap (λ r. contains e.id r.0.processed) (process_new json store verify e s new)
        ∙ contains-cons_self e.id s.processed
  ]

  Known-process :
      (e : BillingEvent) (id : Str) (s : State json store verify)
      → Known id s
      → Known id (process json store verify e s).0
  Known-process e id s h = elim (Bool-cases (contains e.id s.processed)) [
    | inl seen ↦ ap (λ r. contains id r.0.processed) (process_seen json store verify e s seen) ∙ h
    | inr new ↦
        ap (λ r. contains id r.0.processed) (process_new json store verify e s new)
        ∙ contains-cons id e.id s.processed h
  ]

  Known-ingest :
      (d : Delivery) (id : Str) (s : State json store verify)
      → Known id s
      → Known id (ingest json store verify d s).0
  Known-ingest d id s h = elim (ingest_cases json store verify d s) [
    | inl (skipped, same) ↦ ap (λ t. contains id t.processed) same ∙ h
    | inr (e, got, step) ↦ ap (λ r. contains id r.0.processed) step ∙ Known-process e id s h
  ]

  Known-run :
      (ds : List Delivery) (id : Str) (s : State json store verify)
      → Known id s
      → Known id (run json store verify ds s)
  unfolding run
  Known-run [] id s h = h
  Known-run (d ∷ ds) id s h =
      Known-run ds id (ingest json store verify d s).0 (Known-ingest d id s h)

  ingest_rejected :
      (d : Delivery) (s : State json store verify) (e : WebhookError)
      → verify d.received_at d.body d.signature ≡ err e
      → ingest json store verify d s ≡ (s, bad_request)
  unfolding ingest
  ingest_rejected d s e h = rw (h, ingest) refl

  -- Once a request was accepted, then after any further deliveries, a delivery of the same body, at
  -- whatever time and with whatever signature header, changes nothing. It is answered 200 if it
  -- verifies at its own time, and 400 otherwise, as when its signature is stale by then.
  pub ingest_redelivered :
      (d again : Delivery) (ds : List Delivery) (s : State json store verify) (event : BillingEvent)
      → IsAccepted json store verify d event
      → again.body ≡ d.body
      → ingest json store verify again (run json store verify ds (ingest json store verify d s).0)
        ≡ (
          run json store verify ds (ingest json store verify d s).0,
          if is_ok (verify again.received_at again.body again.signature)
              then StatusCode.ok
              else bad_request,
        )
  ingest_redelivered d again ds s event a same =
      let later = run json store verify ds (ingest json store verify d s).0 in
      elim (Result-cases (verify again.received_at again.body again.signature)) [
        | inr (e, h) ↦ ingest_rejected again later e h ∙ rw h refl
        | inl (tt, h) ↦
            ingest-process json store verify again event later
              (record { verified = h; parsed = rw same a.parsed })
            ∙ process_seen json store verify event later (
                Known-run ds event.id (ingest json store verify d s).0 (
                  ap (λ r. contains event.id r.0.processed)
                    (ingest-process json store verify d event s a)
                  ∙ Known-process_self event s))
            ∙ rw h refl
      ]
