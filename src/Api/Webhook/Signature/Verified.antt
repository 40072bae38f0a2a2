-- ===== src/Api/Webhook/Signature/Verified.antt =====
-- The verifier accepts what the secret signed within the tolerance, and nothing else.
use development_kit.Prelude.{
  ℕ, ◌+◌, ◌≤◌, Str, codes, Option, some, ◌≡◌, refl, sym, ◌∙◌, ap, arith, Result, ok, err, ◌>>=◌,
  >>=-eq-ok, ok_or, ◌++◌, [], ◌∷◌, false, ltb, str_eq, str_eq→eq, str_eq_refl, if◌then◌else◌,
  abs_diff, is_empty, length, u64_max, Bool-cases, inl, inr,
}
use development_kit.Text.Decimal.{decimal}
use development_kit.Api.Webhook.Event.{WebhookError, invalid_signature}
use development_kit.Api.Webhook.Signature.{
  Hmac, StripeWebhookVerifier, parse_signature_header, decode_hex, mac_verifies, verify_at,
}
use development_kit.Api.Webhook.Signature.Hex.{decode_hex-hex}
use development_kit.Api.Webhook.Signature.Header.{header, parse_signature_header-header}

module _ (hmac : Hmac) where
  -- The code of a request: that of its timestamp, a dot and its body.
  abbrev pub signature_of : Str → ℕ → Str → Str
  signature_of secret timestamp payload =
      hmac.tag secret ((decimal timestamp ++ codes ".") ++ payload)

  mac_verifies_lem :
      (secret payload expected : Str) (timestamp : ℕ) (mac : hmac.Mac)
      → hmac.new_from_slice secret ≡ some mac
      → mac_verifies hmac mac timestamp payload expected
        ≡ str_eq (signature_of secret timestamp payload) expected
  unfolding mac_verifies
  mac_verifies_lem secret payload expected timestamp mac h =
      ap (λ m. hmac.verify_slice m expected)
        (ap (λ m. hmac.update m payload) (hmac.update-update mac (decimal timestamp) (codes "."))
          ∙ hmac.update-update mac (decimal timestamp ++ codes ".") payload)
      ∙ hmac.verify_slice-update secret ((decimal timestamp ++ codes ".") ++ payload) expected mac h

  long : (s : Str) → length s ≡ 32 → is_empty s ≡ false
  long [] h = absurd (omega arith)
  long (c ∷ s) h = refl

  -- With a secret that HMAC takes as a key, a request whose header carries, as Stripe documents
  -- it, a `u64` timestamp and the code of that timestamp and the body, is accepted exactly while
  -- the timestamp is within the tolerance of the clock, before or after.
  pub verify_at-signed :
      (v : StripeWebhookVerifier) (payload : Str) (timestamp now : ℕ) (mac : hmac.Mac)
      → hmac.new_from_slice v.signing_secret ≡ some mac
      → timestamp ≤ u64_max
      → verify_at hmac v payload
          (some (header timestamp (signature_of v.signing_secret timestamp payload)))
          now
        ≡ (if ltb v.tolerance_secs (abs_diff now timestamp) then err invalid_signature else ok tt)
  unfolding verify_at
  verify_at-signed v payload timestamp now mac h bound =
      let code = signature_of v.signing_secret timestamp payload in
      let bytes = hmac.tag-bytes v.signing_secret ((decimal timestamp ++ codes ".") ++ payload) in
      let size = hmac.length-tag v.signing_secret ((decimal timestamp ++ codes ".") ++ payload) in
      rw
        (
          parse_signature_header-header timestamp code bound bytes,
          decode_hex-hex code bytes (long code size),
          h,
          mac_verifies_lem v.signing_secret payload code timestamp mac h,
          str_eq_refl code,
        )
        refl

  -- What an accepted request shows: a timestamp within the tolerance of the clock, and the code of
  -- that timestamp and this very body under the secret.
  pub record IsSigned (v : StripeWebhookVerifier) (payload : Str) (signature : Option Str) (now : ℕ)
      : Type 0 where
    pub line : Str
    pub timestamp : ℕ
    pub v1_hex : Str
    pub present : signature ≡ some line
    pub parsed : parse_signature_header line ≡ ok (timestamp, v1_hex)
    pub not_stale : now ≤ timestamp + v.tolerance_secs
    pub not_early : timestamp ≤ now + v.tolerance_secs
    pub matches : decode_hex v1_hex ≡ some (signature_of v.signing_secret timestamp payload)

  ok_or_lem : (o : Option Str) (s : Str) → ok_or o invalid_signature ≡ ok s → o ≡ some s
  ok_or_lem o s h = ground arith

  mac_lem : (o : Option hmac.Mac) (m : hmac.Mac) → ok_or o invalid_signature ≡ ok m → o ≡ some m
  mac_lem o m h = ground arith

  near :
      (now timestamp tolerance : ℕ)
      → ltb tolerance (abs_diff now timestamp) ≡ false
      → (now ≤ timestamp + tolerance) × (timestamp ≤ now + tolerance)
  unfolding abs_diff
  near now timestamp tolerance h = ground arith

  abbrev trusted : Result WebhookError (Unit {0})
  trusted = ok tt

  accepted_code :
      (secret payload : Str) (expected : Option Str) (timestamp : ℕ)
      → (ok_or expected invalid_signature >>= λ e.
          ok_or (hmac.new_from_slice secret) invalid_signature >>= λ mac.
          if mac_verifies hmac mac timestamp payload e then ok tt else err invalid_signature)
        ≡ trusted
      → expected ≡ some (signature_of secret timestamp payload)
  accepted_code secret payload expected timestamp h =
      let (e, h₁, k₁) = >>=-eq-ok (ok_or expected invalid_signature) _ h in
      let (mac, h₂, k₂) = >>=-eq-ok (ok_or (hmac.new_from_slice secret) invalid_signature) _ k₁ in
      let m = mac_verifies_lem secret payload e timestamp mac (mac_lem _ mac h₂) in
      ok_or_lem expected e h₁
      ∙ ap some (sym (str_eq→eq (signature_of secret timestamp payload) e (ground (arith, m, k₂))))

  -- A request is accepted only with a signature header that is present and parses, whose timestamp
  -- is within the tolerance of the clock, and whose code is that of its own timestamp and this
  -- very body under the verifier's secret.
  pub verify_at-IsSigned :
      (v : StripeWebhookVerifier) (payload : Str) (signature : Option Str) (now : ℕ)
      → verify_at hmac v payload signature now ≡ ok tt
      → IsSigned v payload signature now
  unfolding verify_at
  verify_at-IsSigned v payload signature now h =
      let (line, h₁, k₁) = >>=-eq-ok (ok_or signature invalid_signature) _ h in
      let (fields, h₂, k₂) = >>=-eq-ok (parse_signature_header line) _ k₁ in
      elim (Bool-cases (ltb v.tolerance_secs (abs_diff now fields.0))) [
        | inl stale ↦ absurd (ground (arith, k₂, stale))
        | inr fresh ↦
            (let (n, m) = near now fields.0 v.tolerance_secs fresh in
              record {
                line = line;
                timestamp = fields.0;
                v1_hex = fields.1;
                present = ok_or_lem signature line h₁;
                parsed = h₂;
                not_stale = n;
                not_early = m;
                matches =
                    accepted_code v.signing_secret payload (decode_hex fields.1) fields.0
                      (rw fresh at k₂);
              })
      ]
