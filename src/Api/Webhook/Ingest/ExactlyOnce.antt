-- ===== src/Api/Webhook/Ingest/ExactlyOnce.antt =====
-- At-least-once delivery, exactly-once effect.
use development_kit.Prelude.{
  ℕ, Str, Option, none, some, ◌≡◌, refl, ◌∙◌, ap, Result, List, [], ◌∷◌, true, false, Bool-cases,
  inl, inr,
}
use development_kit.Api.Accounts.{AccountStateStore}
use development_kit.Api.Webhook.Event.{Json, WebhookError, BillingEvent}
use development_kit.Api.Webhook.Ingest.{
  WebhookState, Delivery, contains, apply_optional, process, run,
}
use development_kit.Api.Webhook.Ingest.Branches.{
  accepted, ingest_cases, process_seen, process_new, reconciled,
}

-- The events with the first delivery of each id, in order; `seen` holds the earlier ids.
pub first_deliveries : List Str → List BillingEvent → List BillingEvent
first_deliveries seen [] = []
first_deliveries seen (e ∷ es) = elim (contains e.id seen) [
  | true ↦ first_deliveries seen es
  | false ↦ e ∷ first_deliveries (e.id ∷ seen) es
]

module _ (json : Json) (store : AccountStateStore)
    (verify : ℕ → Str → Option Str → Result WebhookError (Unit {0})) where
  abbrev pub State : Type 0
  State = WebhookState json store verify

  pub prepend : Option BillingEvent → List BillingEvent → List BillingEvent
  prepend none es = es
  prepend (some e) es = e ∷ es

  pub accepted_events : List Delivery → List BillingEvent
  unfolding prepend
  accepted_events [] = []
  accepted_events (d ∷ ds) = prepend (accepted json store verify d) (accepted_events ds)

  -- The actions of a list of events, applied in order with no deduplication.
  pub apply_events : List BillingEvent → store.State → store.State
  apply_events [] accounts = accounts
  apply_events (e ∷ es) accounts =
      apply_events es (apply_optional json store verify e.action accounts)

  -- Handling an event is skipping it when its id is known, and reconciling it when it is new.
  run_event :
      (e : BillingEvent) (ds : List Delivery) (s : State)
      → ((t : State)
          → (run json store verify ds t).accounts
            ≡ apply_events (first_deliveries t.processed (accepted_events ds)) t.accounts)
      → (run json store verify ds (process json store verify e s).0).accounts
        ≡ apply_events (first_deliveries s.processed (e ∷ accepted_events ds)) s.accounts
  unfolding first_deliveries apply_events
  run_event e ds s rest = elim (Bool-cases (contains e.id s.processed)) [
    | inl seen ↦
        ap (λ r. (run json store verify ds r.0).accounts) (process_seen json store verify e s seen)
        ∙ rw (seen, first_deliveries) (rest s)
    | inr new ↦
        ap (λ r. (run json store verify ds r.0).accounts) (process_new json store verify e s new)
        ∙ rw (new, first_deliveries) (rest (reconciled json store verify e s))
  ]

  -- Whatever is delivered, in whatever order and however often, the account states are those of
  -- applying each accepted event once, at its first delivery: later deliveries of an id, rejected
  -- bodies and malformed bodies have no effect.
  pub run_exactly_once :
      (ds : List Delivery) (s : State)
      → (run json store verify ds s).accounts
        ≡ apply_events (first_deliveries s.processed (accepted_events ds)) s.accounts
  unfolding run accepted_events prepend first_deliveries apply_events
  run_exactly_once [] s = refl
  run_exactly_once (d ∷ ds) s = elim (ingest_cases json store verify d s) [
    | inl (skipped, same) ↦
        rw skipped (ap (λ t. (run json store verify ds t).accounts) same ∙ run_exactly_once ds s)
    | inr (e, got, step) ↦ rw got (
        ap (λ r. (run json store verify ds r.0).accounts) step
        ∙ run_event e ds s (λ t. run_exactly_once ds t))
  ]
