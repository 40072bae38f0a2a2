-- ===== src/Desktop/LicenseStore/Acceptance.antt =====
-- What acceptance by the license store proves of a response, and how long it lasts.
use development_kit.Prelude.{
  or_else, to_option, ℕ, ◌<◌, Str, codes, some, ◌≡◌, arith, ok, >>=-eq-ok, true, ltb, length,
}
use development_kit.Shared.License.{LicenseToken, LicenseRefreshResponse, is_expired_at}
use development_kit.Crypto.{Ed25519, TokenCodec, Base64}
use development_kit.Licenses.{VerifyError, verify_at}
use development_kit.Licenses
use development_kit.Desktop.LicenseStore.{
  LicenseStore, decode, decode_signature, lift_verify, checked, keep, accept, is_valid_at,
}

module _ (ed : Ed25519) (codec : TokenCodec) (base64 : Base64) where
  -- The response holds a payload that the key signed, which is this token, not yet expired.
  pub record IsGenuine (key : ed.VerifyingKey) (response : LicenseRefreshResponse) (now : ℕ)
      (token : LicenseToken) : Type 0 where
    pub payload : Str
    pub signature : Str
    pub decoded_payload : base64.decode response.payload_b64 ≡ some payload
    pub decoded_signature : base64.decode response.signature_b64 ≡ some signature
    pub signature_length : length signature ≡ 64
    pub signed : ed.verify key payload signature ≡ true
    pub parsed : codec.from_slice payload ≡ some token
    pub current : now < token.expires_at

  decoded :
      (value field bytes : Str)
      → decode ed codec base64 value field ≡ ok bytes
      → base64.decode value ≡ some bytes
  unfolding decode
  decoded value field bytes h = ground arith

  decoded_signature_lem :
      (value bytes : Str)
      → decode_signature ed codec base64 value ≡ ok bytes
      → (base64.decode value ≡ some bytes) × (length bytes ≡ 64)
  unfolding decode_signature decode
  decoded_signature_lem value bytes h = ground arith

  verified :
      (key : ed.VerifyingKey) (payload signature : Str) (now : ℕ) (token : LicenseToken)
      → lift_verify (verify_at ed codec key payload signature now) ≡ ok token
      → (ed.verify key payload signature ≡ true)
        × (codec.from_slice payload ≡ some token)
        × (now < token.expires_at)
  unfolding lift_verify verify_at Licenses.verify is_expired_at
  verified key payload signature now token h = ground arith

  checked-IsGenuine :
      (store : LicenseStore ed codec base64) (response : LicenseRefreshResponse) (now : ℕ)
      (token : LicenseToken)
      → checked ed codec base64 store response now ≡ ok token
      → IsGenuine store.verifier response now token
  unfolding checked
  checked-IsGenuine store response now token h =
      let (payload, e, h₁) =
        >>=-eq-ok (decode ed codec base64 response.payload_b64 (codes "payload")) _ h in
      let (signature, f, h₂) =
        >>=-eq-ok (decode_signature ed codec base64 response.signature_b64) _ h₁ in
      let (d, l) = decoded_signature_lem response.signature_b64 signature f in
      let (v, p, c) = verified store.verifier payload signature now token h₂ in
      record {
        payload = payload;
        signature = signature;
        decoded_payload = decoded response.payload_b64 (codes "payload") payload e;
        decoded_signature = d;
        signature_length = l;
        signed = v;
        parsed = p;
        current = c;
      }

  -- A response is accepted only if it decodes to a payload and a signature of 64 bytes that
  -- verifies over that payload under the store's key, the payload is the token returned, and the
  -- token is not yet expired.
  pub accept-IsGenuine :
      (store : LicenseStore ed codec base64) (response : LicenseRefreshResponse) (now : ℕ)
      (token : LicenseToken)
      → (accept ed codec base64 store response now).1 ≡ ok token
      → IsGenuine store.verifier response now token
  unfolding accept keep
  accept-IsGenuine store response now token h =
      checked-IsGenuine store response now token (ground (arith, h))

  -- An accepted token is the one that the store holds from then on; a response that is refused
  -- leaves the store as it was; and the verifying key never changes.
  pub accept_lem :
      (store : LicenseStore ed codec base64) (response : LicenseRefreshResponse) (now : ℕ)
      → (accept ed codec base64 store response now).0 ≡ record store {
        current = or_else (to_option (accept ed codec base64 store response now).1) store.current;
      }
  unfolding accept keep
  accept_lem store response now = ground arith

  -- Once a response is accepted, the application counts as licensed exactly until the token's
  -- expiry, with no further call to the backend.
  pub is_valid_at-accept :
      (store : LicenseStore ed codec base64) (response : LicenseRefreshResponse) (now later : ℕ)
      (token : LicenseToken)
      → (accept ed codec base64 store response now).1 ≡ ok token
      → is_valid_at ed codec base64 (accept ed codec base64 store response now).0 later
        ≡ ltb later token.expires_at
  unfolding is_valid_at is_expired_at
  is_valid_at-accept store response now later token h =
      rw (accept_lem store response now, h) (ground arith)
