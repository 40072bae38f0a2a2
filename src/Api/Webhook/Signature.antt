-- ===== src/Api/Webhook/Signature.antt =====
-- `MockWebhookVerifier` and `StripeWebhookVerifier` of services/api/src/webhook.rs. HMAC-SHA256 is a
-- crate, so it is an interface: `tag` is the code of a whole message under a key.
pub mod Hex
pub mod Header
pub mod Verified
use development_kit.Prelude.{
  All, ◌<◌, ℕ, ◌+◌, ◌-◌, ◌*◌, ◌%◌, Str, codes, Option, none, some, ◌≡◌, Result, ok, err, ◌>>=◌,
  ok_or, List, [], ◌∷◌, ◌++◌, Bool, true, false, ◌&&◌, leb, ltb, str_eq, if◌then◌else◌, abs_diff,
  is_some, length, not, ◌||◌, is_empty, ◌==◌, and_then,
}
use development_kit.Text.{split, split_once, trim}
use development_kit.Text.Decimal.{decimal, parse_u64}
use development_kit.Api.Webhook.Event.{WebhookError, invalid_signature}

unfoldable pub mock_verify : Str → Option Str → Result WebhookError (Unit {0})
mock_verify payload none = err invalid_signature
mock_verify payload (some s) =
    if str_eq s (codes "mock_valid_signature") then ok tt else err invalid_signature

abbrev pub default_timestamp_tolerance_secs : ℕ
default_timestamp_tolerance_secs = 300

-- `Hmac<Sha256>`: `update` in pieces is `update` with their concatenation, and `verify_slice` compares
-- with the code of what was fed, which is 32 bytes.
pub record Hmac : Type 1 where
  pub Mac : Type 0
  pub new_from_slice : Str → Option Mac
  pub update : Mac → Str → Mac
  pub verify_slice : Mac → Str → Bool
  pub tag : Str → Str → Str
  pub update-update : (m : Mac) (a b : Str) → update (update m a) b ≡ update m (a ++ b)
  pub verify_slice-update :
      (key message code : Str) (m : Mac)
      → new_from_slice key ≡ some m
      → verify_slice (update m message) code ≡ str_eq (tag key message) code
  pub length-tag : (key message : Str) → length (tag key message) ≡ 32
  pub tag-bytes : (key message : Str) → All (λ b. b < 256) (tag key message)

pub record StripeWebhookVerifier : Type 0 where
  pub signing_secret : Str
  pub tolerance_secs : ℕ

-- One turn of the loop over the parts: the last `t` and the first `v1` are kept.
unfoldable pub read_part : Str → Option ℕ × Option Str → Option ℕ × Option Str
read_part part (timestamp, v1) = elim (split_once b'=' part) [
  | none ↦ (timestamp, v1)
  | some (key, value) ↦
      if str_eq (trim key) (codes "t")
      then (parse_u64 (trim value), v1)
      else if str_eq (trim key) (codes "v1")
      then (if is_some v1 then (timestamp, v1) else (timestamp, some (trim value)))
      else (timestamp, v1)
]

unfoldable pub read_parts : List Str → Option ℕ × Option Str → Option ℕ × Option Str
read_parts [] fields = fields
read_parts (part ∷ parts) fields = read_parts parts (read_part part fields)

-- The final `match` on both fields.
unfoldable pub both : Option ℕ × Option Str → Result WebhookError (ℕ × Str)
both (some t, some sig) = ok (t, sig)
both _ = err invalid_signature

unfoldable pub parse_signature_header : Str → Result WebhookError (ℕ × Str)
parse_signature_header header = both (read_parts (split b',' header) (none, none))

-- `char::to_digit(16)` on a byte.
unfoldable pub to_digit : ℕ → Option ℕ
to_digit c =
    if leb 48 c && leb c 57
    then some (c - 48)
    else if leb 97 c && leb c 102
    then some (c - 87)
    else if leb 65 c && leb c 70
    then some (c - 55)
    else none

-- The loop over `chunks_exact(2)`, which leaves out an odd last byte.
unfoldable pub decode_pairs : Str → Option Str
decode_pairs [] = some []
decode_pairs (c ∷ []) = some []
decode_pairs (c ∷ d ∷ s) =
    let rest = decode_pairs s in
    and_then (to_digit c)
      λ hi. and_then (to_digit d) λ lo. and_then rest λ out. some ((hi * 16 + lo) % 256 ∷ out)

unfoldable pub decode_hex : Str → Option Str
decode_hex s = if not (length s % 2 == 0) || is_empty s then none else decode_pairs s

module _ (hmac : Hmac) where
  open hmac use {new_from_slice, update, verify_slice}

  -- The message that is signed: `{t}.{payload}`, fed in three pieces.
  unfoldable pub mac_verifies : hmac.Mac → ℕ → Str → Str → Bool
  mac_verifies mac timestamp payload expected =
      verify_slice (update (update (update mac (decimal timestamp)) (codes ".")) payload) expected

  unfoldable pub verify_at :
      StripeWebhookVerifier → Str → Option Str → ℕ → Result WebhookError (Unit {0})
  verify_at v payload signature now = do
    header ← ok_or signature invalid_signature
    (timestamp, v1_hex) ← parse_signature_header header
    if ltb v.tolerance_secs (abs_diff now timestamp) then err invalid_signature else do
      expected ← ok_or (decode_hex v1_hex) invalid_signature
      mac ← ok_or (new_from_slice v.signing_secret) invalid_signature
      if mac_verifies mac timestamp payload expected then ok tt else err invalid_signature
