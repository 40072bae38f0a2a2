-- ===== src/Tests/Signature.antt =====
-- The webhook signature with a code that is the length of the message.
use development_kit.Prelude.{
  ◌%◌, ◌<◌, Str, codes, Option, some, none, is_empty, false, ◌≡◌, refl, ap, arith, ok, err, [], ◌∷◌,
  ◌++◌, ltb, str_eq, if◌then◌else◌, abs_diff, length, All,
}
use development_kit.Api.Webhook.Event.{invalid_signature}
use development_kit.Api.Webhook.Signature.{Hmac, StripeWebhookVerifier, verify_at}
use development_kit.Api.Webhook.Signature.Hex.{hex, IsByte}
use development_kit.Api.Webhook.Signature.Header.{header}
use development_kit.Api.Webhook.Signature.Verified.{
  signature_of, verify_at-signed, IsSigned, verify_at-IsSigned,
}
use development_kit.Text.{trim, trim_start, trim_end, is_whitespace}
use development_kit.Api.App.{
  Router, stripe, stripe_verifier, build_router, load_signer, assemble, base_app,
  normalize_webhook_secret, verify_with,
}
use development_kit.Api.App.Configured.{verify_with-IsSigned, build_router-hex}
use development_kit.Tests.Codecs.{zeros}

append_assoc : (m a b : Str) → (m ++ a) ++ b ≡ m ++ (a ++ b)
append_assoc [] a b = refl
append_assoc (c ∷ m) a b = ap (λ s. c ∷ s) (append_assoc m a b)

abbrev pub tag : Str → Str → Str
tag key message = (length (key ++ message) % 256) ∷ zeros 31

abbrev pub feed : Str × Str → Str → Str × Str
feed m a = (m.0, m.1 ++ a)

pub toy-update : (m : Str × Str) (a b : Str) → feed (feed m a) b ≡ feed m (a ++ b)
toy-update m a b = ap (λ s. (m.0, s)) (append_assoc m.1 a b)

pub toy-verify :
    (key message code : Str) (m : Str × Str)
    → some (key, []) ≡ some m
    → str_eq (tag m.0 (m.1 ++ message)) code ≡ str_eq (tag key message) code
toy-verify key message code m h = let e : (key, []) ≡ m = cc h in rw (← e) refl

pub tag-bytes : (key message : Str) → All (λ b. b < 256) (tag key message)
tag-bytes key message = (omega arith, ground arith)

abbrev pub toy_hmac : Hmac
toy_hmac = record {
  Mac = Str × Str;
  new_from_slice = λ key. some (key, []);
  update = feed;
  verify_slice = λ m code. str_eq (tag m.0 m.1) code;
  tag = tag;
  update-update = toy-update;
  verify_slice-update = toy-verify;
  length-tag = λ key message. refl;
  tag-bytes = tag-bytes;
}

abbrev verifier : StripeWebhookVerifier
verifier = record { signing_secret = codes "whsec"; tolerance_secs = 300 }

abbrev signed_header : Option Str
signed_header = some (header 1700 (signature_of toy_hmac (codes "whsec") 1700 (codes "{}")))

verify_at-signed_example :
    verify_at toy_hmac verifier (codes "{}") signed_header 1800
    ≡ (if ltb 300 (abs_diff 1800 1700) then err invalid_signature else ok tt)
verify_at-signed_example =
    verify_at-signed toy_hmac verifier (codes "{}") 1700 1800 (codes "whsec", []) refl (omega arith)

verify_at-IsSigned_example : IsSigned toy_hmac verifier (codes "{}") signed_header 1800
verify_at-IsSigned_example =
    verify_at-IsSigned toy_hmac verifier (codes "{}") signed_header 1800
      (unfold abs_diff in verify_at-signed_example)

abbrev router : Router
router = record { verifier = stripe verifier; license = none }

configured : build_router (some (codes "whsec")) none ≡ some router
unfolding build_router load_signer assemble base_app normalize_webhook_secret trim trim_start
    trim_end is_whitespace stripe_verifier
configured = refl

accepted : verify_with toy_hmac router.verifier (codes "{}") signed_header 1800 ≡ ok tt
unfolding verify_with abs_diff
accepted = verify_at-signed_example

not_blank : is_empty (trim (codes "whsec")) ≡ false
unfolding trim trim_start trim_end is_whitespace
not_blank = refl

verify_with-IsSigned_example :
    IsSigned toy_hmac (stripe_verifier (trim (codes "whsec"))) (codes "{}") signed_header 1800
verify_with-IsSigned_example =
    verify_with-IsSigned toy_hmac (codes "whsec") (codes "{}") none signed_header router 1800
      not_blank configured accepted

seed_bytes : All IsByte (7 ∷ zeros 31)
seed_bytes = (omega arith, ground arith)

build_router-hex_example :
    (build_router none (some (hex (7 ∷ zeros 31)))
      ≡ some (record {
        verifier = base_app (normalize_webhook_secret none);
        license = some (7 ∷ zeros 31);
      }))
    × (build_router none none
        ≡ some (record { verifier = base_app (normalize_webhook_secret none); license = none }))
build_router-hex_example = build_router-hex none (7 ∷ zeros 31) seed_bytes refl
