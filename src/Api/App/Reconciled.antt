-- ===== src/Api/App/Reconciled.antt =====
-- What the server's routes answer once a billing event was reconciled.
use development_kit.Prelude.{
  ℕ, Str, Option, some, ◌≡◌, refl, ◌∙◌, ap, ok, err, List, [], ◌∷◌, true, false, All, Bool,
  str_eq_refl, if◌then◌else◌,
}
use development_kit.Shared.FeatureKey.{FeatureKey, as_str}
use development_kit.Api.Http.{StatusCode, forbidden}
use development_kit.Api.Principal.{Principal, resolve_principal}
use development_kit.Api.Accounts.{in_memory}
use development_kit.Api.Entitlement.{AccountState, resolve_entitlements}
use development_kit.Api.Entitlement.Policy.{entitled, has_full_access}
use development_kit.Api.Webhook.Event.{Json, BillingEvent, ReconcileAction, target}
use development_kit.Api.Webhook.Signature.{Hmac}
use development_kit.Api.Webhook.Ingest.{contains}
use development_kit.Api.Webhook.Ingest.Branches.{IsAccepted, account_state-ingest}
use development_kit.Api.Gates.{authenticated_gate, get_me_entitlements}
use development_kit.Api.Gates.Keys.{parse_feature_key-as_str}
use development_kit.Api.Gates.Authority.{gate_for_lem}
use development_kit.Api.Products.Notes.{publish_note, publish_note_lem}
use development_kit.Api.App.{WebhookVerifier, resolve, dev_principals}
use development_kit.Api.App.Routes.{
  AppState, dev_state, Request, deliver, me_entitlements, gated_feature, publish, health, me,
  checkout, portal, status, snapshot, value_or_status, acknowledgement, verify_now, webhook_state,
  arriving, webhook, serve, serve_each,
}

-- Every request but a delivery.
abbrev pub IsRead : Request → Type 0
IsRead (deliver body signature) = ⊥
IsRead _ = Unit

module _ (json : Json) (hmac : Hmac) (verifier : WebhookVerifier) where
  serve-read :
      (now : ℕ) (r : Request) (s : AppState) → IsRead r → (serve json hmac verifier now r s).0 ≡ s
  unfolding serve
  serve-read now (deliver body signature) s h = absurd h
  serve-read now (me_entitlements header) s h = refl
  serve-read now (publish header) s h = refl
  serve-read now (gated_feature feature header) s h = refl
  serve-read now (me header) s h = refl
  serve-read now (checkout plan header) s h = refl
  serve-read now (portal header) s h = refl
  serve-read now health s h = refl

  serve_each-reads :
      (rs : List (ℕ × Request)) (s : AppState)
      → All (λ r. IsRead r.1) rs
      → serve_each json hmac verifier rs s ≡ s
  unfolding serve_each
  serve_each-reads [] s h = refl
  serve_each-reads ((now, r) ∷ rs) s h = rw (serve-read now r s h.0) (serve_each-reads rs s h.1)

  -- The answers to a caller whose account has this billing state, at a time and for a feature.
  pub record IsServed (s : AppState) (header : Option Str) (principal : Principal)
      (account : AccountState) (key : FeatureKey) (now : ℕ) : Type 0 where
    pub read_back :
        (serve json hmac verifier now (me_entitlements header) s).1
        ≡ snapshot (resolve_entitlements principal.account_id account now)
    pub gated :
        (serve json hmac verifier now (gated_feature (as_str key) header) s).1
        ≡ status (if entitled key account now then StatusCode.ok else forbidden)
    pub published :
        (serve json hmac verifier now (publish header) s).1
        ≡ status (
            if has_full_access account.status account.current_period_end now
            then StatusCode.ok
            else forbidden)

  module _ (s : AppState) (header : Option Str) (principal : Principal) (account : AccountState)
      (key : FeatureKey) (now : ℕ)
      (known : resolve_principal (resolve dev_principals) header ≡ ok principal)
      (billed : in_memory.account_state s.accounts principal.account_id ≡ some account) where
    read_back_lem :
        (serve json hmac verifier now (me_entitlements header) s).1
        ≡ snapshot (resolve_entitlements principal.account_id account now)
    unfolding serve dev_state get_me_entitlements value_or_status
    read_back_lem = rw (known, get_me_entitlements) (rw billed refl)

    gate_eq :
        authenticated_gate in_memory (dev_state s.accounts) (as_str key) header now
        ≡ (if entitled key account now then StatusCode.ok else forbidden)
    unfolding authenticated_gate dev_state
    gate_eq =
        rw (parse_feature_key-as_str key, authenticated_gate)
          (rw known
            (gate_for_lem in_memory (dev_state s.accounts) key principal account now billed))

    gated_lem :
        (serve json hmac verifier now (gated_feature (as_str key) header) s).1
        ≡ status (if entitled key account now then StatusCode.ok else forbidden)
    unfolding serve
    gated_lem = ap status gate_eq

    acknowledged :
        (b : Bool)
        → acknowledgement (if b then ok tt else err forbidden)
          ≡ (if b then StatusCode.ok else forbidden)
    unfolding acknowledgement
    acknowledged true = refl
    acknowledged false = refl

    publish_eq : publish_note in_memory (dev_state s.accounts) header now ≡ (
        if has_full_access account.status account.current_period_end now
        then ok tt
        else err forbidden)
    unfolding dev_state
    publish_eq =
        publish_note_lem in_memory (dev_state s.accounts) header principal account now known billed

    published_lem :
        (serve json hmac verifier now (publish header) s).1
        ≡ status (
            if has_full_access account.status account.current_period_end now
            then StatusCode.ok
            else forbidden)
    unfolding serve
    published_lem =
        ap (λ r. status (acknowledgement r)) publish_eq
        ∙ ap status (acknowledged (has_full_access account.status account.current_period_end now))

    answers : IsServed s header principal account key now
    answers = record { read_back = read_back_lem; gated = gated_lem; published = published_lem }

  -- The account of the event reads as the state of its action.
  billed-webhook :
      (body : Str) (signature : Option Str) (event : BillingEvent) (action : ReconcileAction)
      (now : ℕ) (s : AppState)
      → IsAccepted json in_memory
          (verify_now json hmac verifier)
          (arriving json hmac verifier now body signature)
          event
      → event.action ≡ some action
      → contains event.id s.processed ≡ false
      → in_memory.account_state
          (serve json hmac verifier now (deliver body signature) s).0.accounts
          (target action).0
        ≡ some (target action).1
  unfolding serve webhook
  billed-webhook body signature event action now s a h new =
      account_state-ingest json in_memory (verify_now json hmac verifier)
        (arriving json hmac verifier now body signature) event action
        (webhook_state json hmac verifier s) (target action).0 a h new
      ∙ rw (str_eq_refl (target action).0) refl

  -- Once a delivery is accepted whose event is new and has an action, then after any further
  -- requests that are no deliveries, a caller who authenticates for the action's account gets the
  -- entitlements of the action's state from `/me/entitlements`, the verdict of the billing policy
  -- on that state from the gate of every feature, and from the publish route of Notes a 200 exactly
  -- while that state has full access.
  pub serve_each-IsServed :
      (body : Str) (signature : Option Str) (event : BillingEvent) (action : ReconcileAction)
      (now : ℕ) (s : AppState) (reads : List (ℕ × Request)) (header : Option Str)
      (principal : Principal) (key : FeatureKey) (later : ℕ)
      → IsAccepted json in_memory
          (verify_now json hmac verifier)
          (arriving json hmac verifier now body signature)
          event
      → event.action ≡ some action
      → contains event.id s.processed ≡ false
      → All (λ r. IsRead r.1) reads
      → resolve_principal (resolve dev_principals) header ≡ ok principal
      → principal.account_id ≡ (target action).0
      → IsServed
          (serve_each json hmac verifier reads
            (serve json hmac verifier now (deliver body signature) s).0)
          header
          principal
          (target action).1
          key
          later
  serve_each-IsServed body signature event action now s reads header principal key later a h new r
        known own =
      rw (serve_each-reads reads (serve json hmac verifier now (deliver body signature) s).0 r) (
        answers (serve json hmac verifier now (deliver body signature) s).0 header principal
          (target action).1 key later known
          (rw own (billed-webhook body signature event action now s a h new)))
