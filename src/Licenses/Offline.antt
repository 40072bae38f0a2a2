-- ===== src/Licenses/Offline.antt =====
-- The path of a license: issued by the backend, accepted by the desktop.
use development_kit.Prelude.{
  ltb, lt→ltb, ℕ, ◌<◌, Str, codes, Option, some, ◌≡◌, refl, ◌∙◌, ap, Result, ok, err, leb,
  if◌then◌else◌, arith, saturating_add,
}
use development_kit.Shared.Entitlements.{Entitlements}
use development_kit.Shared.License.{LicenseToken, is_expired_at}
use development_kit.Crypto.{Ed25519, TokenCodec, Base64}
use development_kit.Licenses.{sign, verify, verify_at, expired}
use development_kit.Desktop.LicenseStore
use development_kit.Desktop.LicenseStore.{
  LicenseStore, decode, decode_signature, lift_verify, checked, keep, accept, is_valid_at,
}
use development_kit.Api.License.{license_token, issue_license}

module _ (ed : Ed25519) (codec : TokenCodec) (base64 : Base64) where
  -- The desktop's check of a signature that the backend made.
  verify-sign :
      (key : ed.SigningKey) (token : LicenseToken)
      → verify ed codec
          (ed.verifying_key key)
          (codec.to_vec token)
          (ed.sign key (codec.to_vec token))
        ≡ ok token
  unfolding verify
  verify-sign key token =
      rw (ed.verify-sign key (codec.to_vec token)) (rw (codec.from_slice-to_vec token) refl)

  decode-encode :
      (bytes field : Str) → decode ed codec base64 (base64.encode bytes) field ≡ ok bytes
  unfolding decode
  decode-encode bytes field = rw (base64.decode-encode bytes) refl

  decode_signature-encode :
      (key : ed.SigningKey) (m : Str)
      → decode_signature ed codec base64 (base64.encode (ed.sign key m)) ≡ ok (ed.sign key m)
  unfolding decode_signature
  decode_signature-encode key m =
      rw (decode-encode (ed.sign key m) (codes "signature")) (rw (ed.length-sign key m) refl)

  -- The outcome of a license at a time, by its expiry alone.
  abbrev pub by_expiry : LicenseToken → ℕ → Result LicenseStore.LicenseStoreError LicenseToken
  by_expiry token now =
      if leb token.expires_at now
      then err (LicenseStore.verify (expired token.expires_at now))
      else ok token

  verify_at-sign :
      (key : ed.SigningKey) (token : LicenseToken) (now : ℕ)
      → lift_verify (
          verify_at ed codec
            (ed.verifying_key key)
            (codec.to_vec token)
            (ed.sign key (codec.to_vec token))
            now)
        ≡ by_expiry token now
  unfolding verify_at is_expired_at lift_verify
  verify_at-sign key token now = rw (verify-sign key token) (ground arith)

  checked-issue_license :
      (key : ed.SigningKey) (account_id user_id : Str) (ents : Entitlements) (issued ttl now : ℕ)
      (current : Option LicenseToken)
      → checked ed codec base64
          (record { verifier = ed.verifying_key key; current = current })
          (issue_license ed codec base64 key account_id user_id ents issued ttl)
          now
        ≡ by_expiry (license_token account_id user_id ents issued ttl) now
  unfolding checked issue_license sign
  checked-issue_license key account_id user_id ents issued ttl now current =
      let token = license_token account_id user_id ents issued ttl in
      rw (decode-encode (codec.to_vec token) (codes "payload"))
        (rw (decode_signature-encode key (codec.to_vec token)) (verify_at-sign key token now))

  -- A license that the backend issues is accepted by every desktop that holds the matching
  -- verifying key, strictly before `issued + ttl` (saturating at the largest `u64`), and from then
  -- on it is refused as expired and the store keeps what it had.
  pub accept-issue_license :
      (key : ed.SigningKey) (account_id user_id : Str) (ents : Entitlements) (issued ttl now : ℕ)
      (current : Option LicenseToken)
      → accept ed codec base64
          (record { verifier = ed.verifying_key key; current = current })
          (issue_license ed codec base64 key account_id user_id ents issued ttl)
          now
        ≡ (if ltb now (saturating_add issued ttl)
            then (
              record {
                verifier = ed.verifying_key key;
                current = some (license_token account_id user_id ents issued ttl);
              },
              ok (license_token account_id user_id ents issued ttl),
            )
            else (
              record { verifier = ed.verifying_key key; current = current },
              err (LicenseStore.verify (expired (saturating_add issued ttl) now)),
            ))
  unfolding accept keep license_token
  accept-issue_license key account_id user_id ents issued ttl now current =
      ground (arith, checked-issue_license key account_id user_id ents issued ttl now current)

  -- The result of the acceptance of an issued license that is not yet expired.
  pub accepted-issue_license :
      (key : ed.SigningKey) (account_id user_id : Str) (ents : Entitlements) (issued ttl now : ℕ)
      (current : Option LicenseToken)
      → now < saturating_add issued ttl
      → (accept ed codec base64
          (record { verifier = ed.verifying_key key; current = current })
          (issue_license ed codec base64 key account_id user_id ents issued ttl)
          now).1
        ≡ ok (license_token account_id user_id ents issued ttl)
  accepted-issue_license key account_id user_id ents issued ttl now current h =
      ap (λ r. r.1) (accept-issue_license key account_id user_id ents issued ttl now current)
      ∙ rw (lt→ltb now (saturating_add issued ttl) h) refl
