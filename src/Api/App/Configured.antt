-- ===== src/Api/App/Configured.antt =====
-- What a configured server verifies and signs with.
use development_kit.Prelude.{
  ℕ, ◌<◌, ◌≡◌, refl, ap, ◌∙◌, arith, Str, Option, none, some, false, [], ◌∷◌, length, is_empty, All,
  ok,
}
use development_kit.Text.{trim, trim_start, trim_end, is_whitespace}
use development_kit.Api.Webhook.Signature.{Hmac}
use development_kit.Api.Webhook.Signature.Hex.{hex, hex_digit, IsByte, length-hex, decode_pairs-hex}
use development_kit.Api.Webhook.Signature.Verified.{IsSigned, verify_at-IsSigned}
use development_kit.Api.App.{
  normalize_webhook_secret, decode_hex_32, from_secret_bytes, Signer, unset, panicked, loaded,
  load_signer, WebhookVerifier, stripe, stripe_verifier, Router, base_app, assemble, build_router,
  verify_with,
}

-- Text without white space is trimmed to itself.
abbrev NoSpace : Str → Type 0
NoSpace = All (λ c. is_whitespace c ≡ false)

trim_end_id : (s : Str) → NoSpace s → trim_end s ≡ s
unfolding trim_end
trim_end_id [] h = refl
trim_end_id (c ∷ s) (h, hs) = rw (h, trim_end) (ap (λ t. c ∷ t) (trim_end_id s hs))

trim_id : (s : Str) → NoSpace s → trim s ≡ s
unfolding trim trim_start
trim_id [] h = trim_end_id [] tt
trim_id (c ∷ s) h = rw (h.0, trim_start) (trim_end_id (c ∷ s) h)

digit-no_space : (n : ℕ) → n < 16 → is_whitespace (hex_digit n) ≡ false
unfolding is_whitespace
digit-no_space n h = ground arith

hex-NoSpace : (bs : Str) → All IsByte bs → NoSpace (hex bs)
hex-NoSpace [] a = tt
hex-NoSpace (b ∷ bs) (h, hs) =
    (digit-no_space _ (omega arith), (digit-no_space _ (omega arith), hex-NoSpace bs hs))

load_signer-hex :
    (seed : Str) → All IsByte seed → length seed ≡ 32 → load_signer (some (hex seed)) ≡ loaded seed
unfolding load_signer decode_hex_32 from_secret_bytes
load_signer-hex seed a n =
    let size : length (hex seed) ≡ 64 = omega (arith, length-hex seed, n) in
    rw (trim_id (hex seed) (hex-NoSpace seed a), load_signer, decode_hex_32)
      (rw size (rw (decode_pairs-hex seed a) (rw n refl)))

-- A signing key that is set as the 64 hexadecimal digits of a seed of 32 bytes mounts the license
-- route with the signer of that seed; without a signing key the route is not mounted. Either way the
-- server starts, and the webhook's verifier is the one that the webhook secret selects.
pub build_router-hex :
    (webhook_secret : Option Str) (seed : Str)
    → All IsByte seed
    → length seed ≡ 32
    → (build_router webhook_secret (some (hex seed))
        ≡ some (record {
          verifier = base_app (normalize_webhook_secret webhook_secret);
          license = some seed;
        }))
      × (build_router webhook_secret none
          ≡ some (record {
            verifier = base_app (normalize_webhook_secret webhook_secret);
            license = none;
          }))
unfolding build_router load_signer
build_router-hex webhook_secret seed a n = (rw (load_signer-hex seed a n, build_router) refl, refl)

assemble-verifier :
    (base : WebhookVerifier) (s : Signer) (router : Router)
    → assemble base s ≡ some router
    → router.verifier ≡ base
unfolding assemble
assemble-verifier base unset router h = ground arith
assemble-verifier base (loaded seed) router h = ground arith
assemble-verifier base panicked router h = cc

verifier_of :
    (raw : Str) (signing_key : Option Str) (router : Router)
    → is_empty (trim raw) ≡ false
    → build_router (some raw) signing_key ≡ some router
    → router.verifier ≡ stripe (stripe_verifier (trim raw))
unfolding build_router normalize_webhook_secret base_app
verifier_of raw signing_key router f h =
    assemble-verifier _ (load_signer signing_key) router h ∙ rw f refl

-- Once a webhook secret is configured that is not blank, a server that starts accepts a delivery only
-- if it is signed under that secret, trimmed, within the default tolerance of the clock: the mock is
-- never consulted, whatever the signing key.
pub verify_with-IsSigned :
    (hmac : Hmac) (raw payload : Str) (signing_key signature : Option Str) (router : Router)
    (now : ℕ)
    → is_empty (trim raw) ≡ false
    → build_router (some raw) signing_key ≡ some router
    → verify_with hmac router.verifier payload signature now ≡ ok tt
    → IsSigned hmac (stripe_verifier (trim raw)) payload signature now
unfolding verify_with
verify_with-IsSigned hmac raw payload signing_key signature router now f h k =
    verify_at-IsSigned hmac (stripe_verifier (trim raw)) payload signature now
      (rw (verifier_of raw signing_key router f h) at k)
