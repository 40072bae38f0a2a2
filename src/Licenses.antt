-- ===== src/Licenses.antt =====
-- crates/license-sign and crates/license-verify: the two halves of the signed license.
pub mod Offline
pub mod Refresh
use development_kit.Prelude.{
  ℕ, Str, Option, none, some, Result, ok, err, ◌>>=◌, ok_or, Bool, length, ◌==◌, if◌then◌else◌,
}
use development_kit.Shared.License.{LicenseToken, is_expired_at}
use development_kit.Crypto.{Ed25519, TokenCodec}

pub record SignedLicense : Type 0 where
  pub payload : Str
  pub signature : Str

pub data VerifyError : Type 0 where
  invalid_key_length : ℕ → VerifyError
  malformed_key bad_signature malformed_payload : VerifyError
  expired : ℕ → ℕ → VerifyError

module _ (ed : Ed25519) (codec : TokenCodec) where
  -- `LicenseSigner::sign`, over `LicenseToken::signing_bytes`.
  unfoldable pub sign : ed.SigningKey → LicenseToken → SignedLicense
  sign key token =
      let payload = codec.to_vec token in
      record { payload = payload; signature = ed.sign key payload }

  -- `LicenseVerifier::from_public_bytes`.
  unfoldable pub from_public_bytes : Str → Result VerifyError ed.VerifyingKey
  from_public_bytes public =
      if length public == 32
      then ok_or (ed.from_bytes public) malformed_key
      else err (invalid_key_length (length public))

  unfoldable pub verify : ed.VerifyingKey → Str → Str → Result VerifyError LicenseToken
  verify key payload signature =
      if ed.verify key payload signature
      then ok_or (codec.from_slice payload) malformed_payload
      else err bad_signature

  unfoldable pub verify_at : ed.VerifyingKey → Str → Str → ℕ → Result VerifyError LicenseToken
  verify_at key payload signature now = do
    token ← verify key payload signature
    if is_expired_at token now then err (expired token.expires_at now) else ok token
