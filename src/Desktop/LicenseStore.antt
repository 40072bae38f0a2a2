-- ===== src/Desktop/LicenseStore.antt =====
-- apps/desktop/src-tauri/src/license_store.rs: the offline license. A method that writes returns
-- the new store beside its result.
pub mod Acceptance
use development_kit.Prelude.{
  ℕ, Str, codes, Option, none, some, Result, ok, err, ◌>>=◌, ok_or, Bool, true, false, not, length,
  ◌==◌, if◌then◌else◌,
}
use development_kit.Shared.License.{LicenseToken, LicenseRefreshResponse, is_expired_at}
use development_kit.Crypto.{Ed25519, TokenCodec, Base64}
use development_kit.Licenses.{VerifyError, from_public_bytes, verify_at}

pub data LicenseStoreError : Type 0 where
  malformed_encoding : Str → LicenseStoreError
  bad_signature_length : ℕ → LicenseStoreError
  verify : VerifyError → LicenseStoreError

-- `#[from] VerifyError`: the `?` operator wraps the error.
unfoldable pub lift_verify {ℓ} : {A : Type ℓ} → Result VerifyError A → Result LicenseStoreError A
lift_verify (ok a) = ok a
lift_verify (err e) = err (verify e)

module _ (ed : Ed25519) (codec : TokenCodec) (base64 : Base64) where
  pub record LicenseStore : Type 0 where
    pub verifier : ed.VerifyingKey
    pub current : Option LicenseToken

  unfoldable pub open_store : Str → Result LicenseStoreError LicenseStore
  open_store public = do
    verifier ← lift_verify (from_public_bytes ed codec public)
    ok (record { verifier = verifier; current = none })

  unfoldable pub decode : Str → Str → Result LicenseStoreError Str
  decode value field = ok_or (base64.decode value) (malformed_encoding field)

  unfoldable pub decode_signature : Str → Result LicenseStoreError Str
  decode_signature value = do
    bytes ← decode value (codes "signature")
    if length bytes == 64 then ok bytes else err (bad_signature_length (length bytes))

  -- The token that a response carries, if it is genuine and current.
  unfoldable pub checked :
      LicenseStore → LicenseRefreshResponse → ℕ → Result LicenseStoreError LicenseToken
  checked store response now = do
    payload ← decode response.payload_b64 (codes "payload")
    signature ← decode_signature response.signature_b64
    lift_verify (verify_at ed codec store.verifier payload signature now)

  -- `self.current = Some(token)`, reached only when every `?` before it passed.
  unfoldable pub keep :
      LicenseStore
      → Result LicenseStoreError LicenseToken
      → LicenseStore × Result LicenseStoreError LicenseToken
  keep store (ok token) = (record store { current = some token }, ok token)
  keep store (err e) = (store, err e)

  unfoldable pub accept :
      LicenseStore
      → LicenseRefreshResponse
      → ℕ
      → LicenseStore × Result LicenseStoreError LicenseToken
  accept store response now = keep store (checked store response now)

  unfoldable pub is_valid_at : LicenseStore → ℕ → Bool
  is_valid_at store now = elim store.current [
    | none ↦ false
    | some token ↦ not (is_expired_at token now)
  ]
