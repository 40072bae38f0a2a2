-- ===== src/Xtask/LeakScan/Matchers.antt =====
-- The matchers of `scan_text`: the kinds of sensitive value that a text holds.
use development_kit.Prelude.{
  ℕ, ◌+◌, Str, codes, none, some, Bool, true, false, not, ◌&&◌, ◌||◌, leb, List, [], ◌∷◌, ◌++◌, any,
  is_empty, if◌then◌else◌,
}
use development_kit.Text.{split_once}
use development_kit.Text.Search.{any_match, ends_with, first_line}

pub data SecretKind : Type 0 where
  stripe_secret_key stripe_webhook_secret database_url private_key : SecretKind

abbrev pub kind_eq : SecretKind → SecretKind → Bool
kind_eq stripe_secret_key stripe_secret_key = true
kind_eq stripe_webhook_secret stripe_webhook_secret = true
kind_eq database_url database_url = true
kind_eq private_key private_key = true
kind_eq _ _ = false

pub record PrefixRule : Type 0 where
  pub kind : SecretKind
  pub prefix : Str

abbrev pub prefix_rules : List PrefixRule
prefix_rules =
    record { kind = stripe_secret_key; prefix = codes "sk_live_" }
    ∷ record { kind = stripe_secret_key; prefix = codes "sk_test_" }
    ∷ record { kind = stripe_secret_key; prefix = codes "rk_live_" }
    ∷ record { kind = stripe_secret_key; prefix = codes "rk_test_" }
    ∷ record { kind = stripe_webhook_secret; prefix = codes "whsec_" }
    ∷ []

abbrev pub min_token_body : ℕ
min_token_body = 12

abbrev pub is_ascii_alphanumeric : ℕ → Bool
is_ascii_alphanumeric c =
    leb b'0' c && leb c b'9' || leb b'A' c && leb c b'Z' || leb b'a' c && leb c b'z'

unfoldable pub token_body_len : Str → ℕ
token_body_len [] = 0
token_body_len (c ∷ s) = let n = token_body_len s in if is_ascii_alphanumeric c then n + 1 else 0

unfoldable pub content_has_prefixed_token : Str → Str → Bool
unfolding any_match token_body_len
content_has_prefixed_token content prefix =
    any_match prefix (λ rest. leb min_token_body (token_body_len rest)) content

abbrev pub db_url_schemes : List Str
db_url_schemes = codes "postgres://" ∷ codes "postgresql://" ∷ []

-- `split_once('@')` stands for `find('@')` and the text before it.
unfoldable pub userinfo_has_credentials : Str → Bool
unfolding split_once
userinfo_has_credentials after_scheme = elim (split_once b'@' after_scheme) [
  | none ↦ false
  | some (userinfo, _) ↦ elim (split_once b':' userinfo) [
    | none ↦ false
    | some (user, pass) ↦ not (is_empty user) && not (is_empty pass)
  ]
]

unfoldable pub content_has_credentialed_db_url : Str → Bool
unfolding any_match userinfo_has_credentials
content_has_credentialed_db_url content =
    any (λ scheme. any_match scheme userinfo_has_credentials content) db_url_schemes

abbrev pub pem_header : Str
pem_header = codes "-----BEGIN "

abbrev pub pem_trailer : Str
pem_trailer = codes "PRIVATE KEY-----"

unfoldable pub line_ends_with_trailer : Str → Bool
unfolding first_line ends_with
line_ends_with_trailer rest = elim (first_line rest) [
  | none ↦ false
  | some line ↦ ends_with line pem_trailer
]

unfoldable pub content_has_pem_private_key : Str → Bool
unfolding any_match line_ends_with_trailer
content_has_pem_private_key content = any_match pem_header line_ends_with_trailer content

-- `if !found.contains(&kind) && test { found.push(kind) }`.
unfoldable pub push_new : SecretKind → Bool → List SecretKind → List SecretKind
push_new kind test found =
    if not (any (kind_eq kind) found) && test then found ++ kind ∷ [] else found

-- The loop over the rules, with the kinds found so far.
unfoldable pub scan_rules : Str → List PrefixRule → List SecretKind → List SecretKind
unfolding content_has_prefixed_token push_new
scan_rules content [] found = found
scan_rules content (rule ∷ rules) found =
    scan_rules content rules
      (push_new rule.kind (content_has_prefixed_token content rule.prefix) found)

-- `scan_text` before it names the source: the kinds, each once.
unfoldable pub scan_kinds : Str → List SecretKind
unfolding scan_rules content_has_credentialed_db_url content_has_pem_private_key
scan_kinds content =
    let found =
      push_new database_url (content_has_credentialed_db_url content)
        (scan_rules content prefix_rules []) in
    if content_has_pem_private_key content then found ++ private_key ∷ [] else found
