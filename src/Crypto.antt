-- ===== src/Crypto.antt =====
-- The third-party crates behind licenses, as interfaces: ed25519-dalek, base64, and serde_json's
-- encoding of a license token. Each field below a line of laws states what the crate documents.
use development_kit.Prelude.{Str, Option, some, ◌≡◌, Bool, true, length}
use development_kit.Shared.License.{LicenseToken}

pub record Ed25519 : Type 1 where
  pub SigningKey : Type 0
  pub VerifyingKey : Type 0
  pub verifying_key : SigningKey → VerifyingKey
  pub sign : SigningKey → Str → Str
  pub verify : VerifyingKey → Str → Str → Bool
  -- Reading a verifying key from its 32 bytes, which fails on bytes that are no point.
  pub from_bytes : Str → Option VerifyingKey
  pub to_bytes : VerifyingKey → Str
  -- A signature verifies under the signer's own key, and has 64 bytes; a key reads back.
  pub verify-sign : (k : SigningKey) (m : Str) → verify (verifying_key k) m (sign k m) ≡ true
  pub length-sign : (k : SigningKey) (m : Str) → length (sign k m) ≡ 64
  pub from_bytes-to_bytes : (v : VerifyingKey) → from_bytes (to_bytes v) ≡ some v
  pub length-to_bytes : (v : VerifyingKey) → length (to_bytes v) ≡ 32

pub record Base64 : Type 0 where
  pub encode : Str → Str
  pub decode : Str → Option Str
  pub decode-encode : (bytes : Str) → decode (encode bytes) ≡ some bytes

pub record TokenCodec : Type 0 where
  pub to_vec : LicenseToken → Str
  pub from_slice : Str → Option LicenseToken
  pub from_slice-to_vec : (t : LicenseToken) → from_slice (to_vec t) ≡ some t
