-- ===== src/Xtask/LeakScan/Found.antt =====
-- What `scan_text` finds: each sensitive value, nothing else, and no kind twice.
use development_kit.Prelude.{
  ◌≡◌, refl, ap, ◌↔◌, inl, inr, Str, false, Bool-cases, List, [], ◌∷◌, map, All, All-at, any,
  Among-any, Among, first, later, Among-append_left, Among-append_right, append-Among,
}
use development_kit.Xtask.LeakScan.Matchers.{
  SecretKind, database_url, private_key, kind_eq, PrefixRule, prefix_rules,
  content_has_credentialed_db_url, content_has_pem_private_key, push_new, scan_rules, scan_kinds,
}
use development_kit.Xtask.LeakScan.Sensitive.{
  Sensitive, token, url, pem, has_token, has_token-Sensitive,
}
use development_kit.Xtask.LeakScan.Credentials.{
  has_url, has_url-Sensitive, has_pem, has_pem-Sensitive, userinfo_has_credentials_of,
}
use development_kit.Xtask.LeakScan.{LeakFinding, scan_text}
use development_kit.Xtask.LeakScan.Kinds.{
  push_new-Among, Among-push_new, pushed_Among, Distinct, snoc-Distinct, push_new-Distinct,
  scan_rules-Distinct, scan_rules-Among, rule_Among, Distinct-if,
}

-- The kinds before the test for a private key.
abbrev values_found : Str → List SecretKind
values_found content =
    push_new database_url (content_has_credentialed_db_url content)
      (scan_rules content prefix_rules [])

rule_kinds : All (λ (r : PrefixRule). kind_eq private_key r.kind ≡ false) prefix_rules
rule_kinds = (refl, (refl, (refl, (refl, (refl, tt)))))

values_found-Among :
    (content : Str) (k : SecretKind)
    → Among k (values_found content)
    → Sensitive content k × (kind_eq private_key k ≡ false)
values_found-Among content k m = elim (push_new-Among k database_url _ _ m) [
  | inr (e, t) ↦ rw e (has_url-Sensitive content t, refl)
  | inl m' ↦ elim (scan_rules-Among content k prefix_rules [] m') [
    | inl none_yet ↦ elim none_yet [ ]
    | inr (rule, a, e, t) ↦ rw e (
      has_token-Sensitive content rule a t,
      All-at (λ (r : PrefixRule). kind_eq private_key r.kind ≡ false) prefix_rules rule_kinds a,
    )
  ]
]

values_found_no_key : (content : Str) → any (kind_eq private_key) (values_found content) ≡ false
values_found_no_key content = elim (Bool-cases (any (kind_eq private_key) (values_found content))) [
  | inr f ↦ f
  | inl t ↦
      (let (k, m, e) = Among-any (kind_eq private_key) (values_found content) t in
        let (_, f) = values_found-Among content k m in absurd (cc (e, f)))
]

scan_kinds-Sensitive :
    (content : Str) (k : SecretKind) → Among k (scan_kinds content) → Sensitive content k
unfolding scan_kinds
scan_kinds-Sensitive content k m = elim (Bool-cases (content_has_pem_private_key content)) [
  | inr f ↦ (values_found-Among content k (rw f at m)).0
  | inl t ↦ elim (append-Among (values_found content) (private_key ∷ []) (rw t at m)) [
    | inl value ↦ (values_found-Among content k value).0
    | inr (first e) ↦ rw e (has_pem-Sensitive content t)
    | inr (later n) ↦ elim n [ ]
  ]
]

value_found :
    (content : Str) (k : SecretKind) → Among k (values_found content) → Among k (scan_kinds content)
unfolding scan_kinds
value_found content k m = elim (Bool-cases (content_has_pem_private_key content)) [
  | inr f ↦ rw f m
  | inl t ↦ rw t (Among-append_left (values_found content) (private_key ∷ []) m)
]

Sensitive-scan_kinds :
    (content : Str) (k : SecretKind) → Sensitive content k → Among k (scan_kinds content)
unfolding scan_kinds
Sensitive-scan_kinds content k (token rule pre body post a e h n) = value_found content rule.kind (
    Among-push_new rule.kind database_url _ _
      (rule_Among content rule prefix_rules [] a (has_token content rule pre body post a e h n)))
Sensitive-scan_kinds content k (url scheme pre user pass post a e h h' nu np) =
    value_found content database_url (
      pushed_Among database_url _ (scan_rules content prefix_rules [])
        (has_url content scheme pre _ a e (userinfo_has_credentials_of user pass post h h' nu np)))
Sensitive-scan_kinds content k (pem pre label eol e h at) =
    rw (has_pem content pre label eol e h at)
      (Among-append_right (values_found content) (private_key ∷ []) (first refl))

scan_kinds-Distinct : (content : Str) → Distinct (scan_kinds content)
unfolding scan_kinds
scan_kinds-Distinct content =
    let d = push_new-Distinct database_url _ _ (scan_rules-Distinct content prefix_rules [] tt) in
    Distinct-if (content_has_pem_private_key content) _ _ d
      (snoc-Distinct private_key (values_found content) (values_found_no_key content) d)

module _ (source : Str) where
  abbrev finding : SecretKind → LeakFinding
  finding kind = record { kind = kind; source = source }

  finding-Among :
      (k : SecretKind) (ks : List SecretKind) → Among k ks → Among (finding k) (map finding ks)
  finding-Among k [] m = elim m [ ]
  finding-Among k (j ∷ ks) (first e) = first (ap finding e)
  finding-Among k (j ∷ ks) (later m) = later (finding-Among k ks m)

  Among-finding :
      (k : SecretKind) (ks : List SecretKind) → Among (finding k) (map finding ks) → Among k ks
  Among-finding k [] m = elim m [ ]
  Among-finding k (j ∷ ks) (first e) = first (ap (λ (f : LeakFinding). f.kind) e)
  Among-finding k (j ∷ ks) (later m) = later (Among-finding k ks m)

  finding_kinds : (ks : List SecretKind) → map (λ (f : LeakFinding). f.kind) (map finding ks) ≡ ks
  finding_kinds [] = refl
  finding_kinds (k ∷ ks) = ap (λ t. k ∷ t) (finding_kinds ks)

-- Scanning a text reports a kind, with the text's source, exactly when the text holds a sensitive
-- value of that kind: a token of one of the five prefixes with at least twelve letters or digits, a
-- database URL with a user and a password before its first `@`, or the first line of a private key.
-- No kind is reported twice.
pub scan_text-Sensitive :
    (content source : Str) (kind : SecretKind)
    → (Among (record { kind = kind; source = source }) (scan_text content source)
        ↔ Sensitive content kind)
      × Distinct (map (λ (f : LeakFinding). f.kind) (scan_text content source))
unfolding scan_text
scan_text-Sensitive content source kind = (
  (
    λ m. scan_kinds-Sensitive content kind (Among-finding source kind (scan_kinds content) m),
    λ s. finding-Among source kind (scan_kinds content) (Sensitive-scan_kinds content kind s),
  ),
  rw (finding_kinds source (scan_kinds content)) (scan_kinds-Distinct content),
)

Among-source :
    (source : Str) (f : LeakFinding) (ks : List SecretKind)
    → Among f (map (finding source) ks)
    → f.source ≡ source
Among-source source f [] m = elim m [ ]
Among-source source f (k ∷ ks) (first e) = ap (λ (g : LeakFinding). g.source) e
Among-source source f (k ∷ ks) (later m) = Among-source source f ks m

pub scan_text_source :
    (content source : Str) (f : LeakFinding)
    → Among f (scan_text content source)
    → f.source ≡ source
unfolding scan_text
scan_text_source content source f m = Among-source source f (scan_kinds content) m
