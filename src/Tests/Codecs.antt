-- ===== src/Tests/Codecs.antt =====
-- Concrete instances of the crates behind licenses: a codec that writes each part of a token after a
-- tag, an identity in place of base64, and a signature that is the key, padded to its length.
use development_kit.Prelude.{
  ℕ, zero, suc, Str, Option, none, some, ◌≡◌, refl, ap, [], ◌∷◌, true, false, and_then, str_eq,
  str_eq_refl, ◌==◌, if◌then◌else◌,
}
use development_kit.Shared.FeatureKey.{
  FeatureKey, index, export_pdf, cloud_sync, advanced_reports, team_members, max_projects,
  priority_support, api_access,
}
use development_kit.Shared.Entitlements.{FeatureValue, enabled, limit}
use development_kit.Shared.License.{LicenseToken}
use development_kit.Crypto.{Ed25519, Base64, TokenCodec}
use development_kit.Api.Entitlement.{Features}

abbrev pub put_text : Str → Str → Str
put_text [] rest = 0 ∷ rest
put_text (c ∷ s) rest = 1 ∷ c ∷ put_text s rest

abbrev pub cons_text : ℕ → Option (Str × Str) → Option (Str × Str)
cons_text c none = none
cons_text c (some (s, rest)) = some (c ∷ s, rest)

abbrev pub take_text : Str → Option (Str × Str)
take_text [] = none
take_text (zero ∷ rest) = some ([], rest)
take_text (suc n ∷ []) = none
take_text (suc n ∷ c ∷ s) = cons_text c (take_text s)

pub take-put_text : (s rest : Str) → take_text (put_text s rest) ≡ some (s, rest)
take-put_text [] rest = refl
take-put_text (c ∷ s) rest = ap (cons_text c) (take-put_text s rest)

abbrev pub key_at : ℕ → FeatureKey
key_at i =
    if i == 0
    then export_pdf
    else if i == 1
    then cloud_sync
    else if i == 2
    then advanced_reports
    else if i == 3
    then team_members
    else if i == 4
    then max_projects
    else if i == 5
    then priority_support
    else api_access

pub key_at-index : (k : FeatureKey) → key_at (index k) ≡ k
key_at-index export_pdf = refl
key_at-index cloud_sync = refl
key_at-index advanced_reports = refl
key_at-index team_members = refl
key_at-index max_projects = refl
key_at-index priority_support = refl
key_at-index api_access = refl

abbrev pub put_features : Features → Str → Str
put_features [] rest = 0 ∷ rest
put_features ((k, enabled true) ∷ m) rest = 1 ∷ index k ∷ 1 ∷ put_features m rest
put_features ((k, enabled false) ∷ m) rest = 1 ∷ index k ∷ 0 ∷ put_features m rest
put_features ((k, limit n) ∷ m) rest = 2 ∷ index k ∷ n ∷ put_features m rest

abbrev pub cons_feature :
    FeatureKey → FeatureValue → Option (Features × Str) → Option (Features × Str)
cons_feature k v none = none
cons_feature k v (some (m, rest)) = some ((k, v) ∷ m, rest)

abbrev pub take_features : Str → Option (Features × Str)
take_features [] = none
take_features (zero ∷ rest) = some ([], rest)
take_features (suc t ∷ []) = none
take_features (suc t ∷ k ∷ []) = none
take_features (suc zero ∷ k ∷ b ∷ s) = cons_feature (key_at k) (enabled (b == 1)) (take_features s)
take_features (suc (suc t) ∷ k ∷ n ∷ s) = cons_feature (key_at k) (limit n) (take_features s)

pub take-put_features :
    (m : Features) (rest : Str) → take_features (put_features m rest) ≡ some (m, rest)
take-put_features [] rest = refl
take-put_features ((k, enabled true) ∷ m) rest = rw (take-put_features m rest, key_at-index k) refl
take-put_features ((k, enabled false) ∷ m) rest = rw (take-put_features m rest, key_at-index k) refl
take-put_features ((k, limit n) ∷ m) rest = rw (take-put_features m rest, key_at-index k) refl

abbrev pub to_vec : LicenseToken → Str
to_vec t =
    t.issued_at
    ∷ t.expires_at
    ∷ put_text t.token_id
        (put_text t.user_id (put_text t.account_id (put_text t.plan (put_features t.features []))))

abbrev pub take_token : ℕ → ℕ → Str → Option LicenseToken
take_token issued expires s = and_then (take_text s) λ a. and_then (take_text a.1) λ b.
    and_then (take_text b.1) λ c. and_then (take_text c.1) λ d. and_then (take_features d.1) λ e.
      some (record {
        token_id = a.0;
        user_id = b.0;
        account_id = c.0;
        plan = d.0;
        features = e.0;
        issued_at = issued;
        expires_at = expires;
      })

abbrev pub from_slice : Str → Option LicenseToken
from_slice (issued ∷ expires ∷ s) = take_token issued expires s
from_slice _ = none

pub from_slice-to_vec : (t : LicenseToken) → from_slice (to_vec t) ≡ some t
from_slice-to_vec t =
    let f = put_features t.features [] in
    let p = put_text t.plan f in
    let a = put_text t.account_id p in
    let u = put_text t.user_id a in
    rw
      (
        take-put_text t.token_id u,
        take-put_text t.user_id a,
        take-put_text t.account_id p,
        take-put_text t.plan f,
        take-put_features t.features [],
      )
      refl

abbrev pub token_codec : TokenCodec
token_codec = record {
  to_vec = to_vec;
  from_slice = from_slice;
  from_slice-to_vec = from_slice-to_vec;
}

abbrev pub plain : Base64
plain = record { encode = λ s. s; decode = some; decode-encode = λ s. refl }

abbrev pub zeros : ℕ → Str
zeros zero = []
zeros (suc n) = 0 ∷ zeros n

abbrev pub first_byte : Str → Option ℕ
first_byte [] = none
first_byte (c ∷ s) = some c

abbrev pub padded : Ed25519
padded = record {
  SigningKey = ℕ;
  VerifyingKey = ℕ;
  verifying_key = λ k. k;
  sign = λ k m. k ∷ zeros 63;
  verify = λ v m s. str_eq s (v ∷ zeros 63);
  from_bytes = first_byte;
  to_bytes = λ v. v ∷ zeros 31;
  verify-sign = λ k m. str_eq_refl (k ∷ zeros 63);
  length-sign = λ k m. refl;
  from_bytes-to_bytes = λ v. refl;
  length-to_bytes = λ v. refl;
}
