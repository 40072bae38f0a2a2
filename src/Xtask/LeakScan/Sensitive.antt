-- ===== src/Xtask/LeakScan/Sensitive.antt =====
-- A description of the sensitive values that does not mention the scan, and the matcher of tokens against it.
use development_kit.Prelude.{
  ◌≤◌, ◌≡◌, refl, ap, ◌∙◌, arith, inl, inr, Str, true, false, leb, Bool-cases, length, [], ◌∷◌,
  ◌++◌, All, All-at, is_empty, Among,
}
use development_kit.Text.Search.Complete.{is_border_free, any_match_of, any_match-occurs}
use development_kit.Text.Search.Cut.{Lacks}
use development_kit.Text.Search.Line.{AtLineEnd}
use development_kit.Xtask.LeakScan.Matchers.{
  SecretKind, database_url, private_key, PrefixRule, prefix_rules, min_token_body,
  is_ascii_alphanumeric, token_body_len, content_has_prefixed_token, db_url_schemes, pem_header,
  pem_trailer,
}

-- A text holds a sensitive value of a kind: a token with one of the prefixes and a body of at least
-- twelve letters and digits; a database URL whose text up to the first `@` is a user and a password,
-- both not empty, with the first `:` between them; or the first line of a private key, which ends
-- with its marker.
pub data Sensitive (content : Str) : SecretKind → Type 0 where
  token :
      (rule : PrefixRule) (pre body post : Str)
      → Among rule prefix_rules
      → content ≡ pre ++ (rule.prefix ++ (body ++ post))
      → All (λ c. is_ascii_alphanumeric c ≡ true) body
      → min_token_body ≤ length body
      → Sensitive content rule.kind
  url :
      (scheme pre user pass post : Str)
      → Among scheme db_url_schemes
      → content ≡ pre ++ (scheme ++ ((user ++ (b':' ∷ pass)) ++ (b'@' ∷ post)))
      → Lacks b'@' (user ++ (b':' ∷ pass))
      → Lacks b':' user
      → is_empty user ≡ false
      → is_empty pass ≡ false
      → Sensitive content database_url
  pem :
      (pre label eol : Str)
      → content ≡ pre ++ (pem_header ++ ((label ++ pem_trailer) ++ eol))
      → Lacks 10 label
      → AtLineEnd eol
      → Sensitive content private_key

token_body_len_append :
    (body post : Str)
    → All (λ c. is_ascii_alphanumeric c ≡ true) body
    → length body ≤ token_body_len (body ++ post)
unfolding token_body_len
token_body_len_append [] post h = omega arith
token_body_len_append (c ∷ body) post (h, hs) =
    let ih = token_body_len_append body post hs in rw h (omega (arith, ih))

token_body_cut :
    (s : Str)
    → (body post : Str) × (s ≡ body ++ post)
      × All (λ c. is_ascii_alphanumeric c ≡ true) body
      × (token_body_len s ≡ length body)
unfolding token_body_len
token_body_cut [] = ([], [], refl, tt, refl)
token_body_cut (c ∷ s) = elim (Bool-cases (is_ascii_alphanumeric c)) [
  | inl t ↦
      (let (body, post, e, a, n) = token_body_cut s in
        (c ∷ body, post, ap (λ u. c ∷ u) e, (t, a), rw t (omega (arith, n))))
  | inr f ↦ ([], c ∷ s, refl, tt, rw f refl)
]

prefixes_border_free : All (λ (rule : PrefixRule). is_border_free rule.prefix ≡ true) prefix_rules
unfolding is_border_free
prefixes_border_free = (refl, (refl, (refl, (refl, (refl, tt)))))

pub has_token-Sensitive :
    (content : Str) (rule : PrefixRule)
    → Among rule prefix_rules
    → content_has_prefixed_token content rule.prefix ≡ true
    → Sensitive content rule.kind
unfolding content_has_prefixed_token
has_token-Sensitive content rule m h =
    let (pre, rest, e, t) =
      any_match-occurs rule.prefix (λ rest. leb min_token_body (token_body_len rest)) content h in
    let (body, post, e', a, n) = token_body_cut rest in
    token rule pre body post m (e ∙ ap (λ u. pre ++ (rule.prefix ++ u)) e') a (ground arith)

pub has_token :
    (content : Str) (rule : PrefixRule) (pre body post : Str)
    → Among rule prefix_rules
    → content ≡ pre ++ (rule.prefix ++ (body ++ post))
    → All (λ c. is_ascii_alphanumeric c ≡ true) body
    → min_token_body ≤ length body
    → content_has_prefixed_token content rule.prefix ≡ true
unfolding content_has_prefixed_token
has_token content rule pre body post m e a n =
    let t : leb min_token_body (token_body_len (body ++ post)) ≡ true =
      ground (arith, token_body_len_append body post a) in
    rw e (
      any_match_of rule.prefix (λ rest. leb min_token_body (token_body_len rest)) pre (body ++ post)
        (All-at (λ (r : PrefixRule). is_border_free r.prefix ≡ true) prefix_rules
          prefixes_border_free m)
        t)
