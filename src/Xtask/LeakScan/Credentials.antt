-- ===== src/Xtask/LeakScan/Credentials.antt =====
-- The matchers of database URLs and of private keys against the description of what they find.
use development_kit.Prelude.{
  ◌≡◌, refl, sym, ap, ◌∙◌, arith, inl, inr, Str, codes, Option-cases, true, false, not, ◌&&◌, [],
  ◌∷◌, ◌++◌, All, All-at, any_of, Among-any, is_empty, str_eq, Among,
}
use development_kit.Text.{split_once}
use development_kit.Text.Search.{any_match, ends_with, first_line, before, strip_final_cr}
use development_kit.Text.Search.Complete.{is_border_free, any_match_of, any_match-occurs}
use development_kit.Text.Search.Cut.{
  Lacks, split_once_append, split_once-eq-some, ends_with_append, ends_with-eq-append,
}
use development_kit.Text.Search.Line.{
  AtLineEnd, line_of, line_of_append, line_of_cut, Lacks-front, Lacks-append,
}
use development_kit.Xtask.LeakScan.Matchers.{
  database_url, private_key, db_url_schemes, userinfo_has_credentials,
  content_has_credentialed_db_url, pem_header, pem_trailer, line_ends_with_trailer,
  content_has_pem_private_key,
}
use development_kit.Xtask.LeakScan.Sensitive.{Sensitive, url, pem}

schemes_border_free : All (λ scheme. is_border_free scheme ≡ true) db_url_schemes
unfolding is_border_free
schemes_border_free = (refl, (refl, tt))

pub userinfo_has_credentials_of :
    (user pass post : Str)
    → Lacks b'@' (user ++ (b':' ∷ pass))
    → Lacks b':' user
    → is_empty user ≡ false
    → is_empty pass ≡ false
    → userinfo_has_credentials ((user ++ (b':' ∷ pass)) ++ (b'@' ∷ post)) ≡ true
unfolding userinfo_has_credentials
userinfo_has_credentials_of user pass post h k nu np =
    rw (split_once_append b'@' (user ++ (b':' ∷ pass)) post h, userinfo_has_credentials)
      (rw (split_once_append b':' user pass k) (rw nu (rw np refl)))

-- The text after a scheme holds credentials: the parts of the description.
abbrev Credentials : Str → Type 0
Credentials s =
    (user pass post : Str) × (s ≡ (user ++ (b':' ∷ pass)) ++ (b'@' ∷ post))
    × Lacks b'@' (user ++ (b':' ∷ pass))
    × Lacks b':' user
    × (is_empty user ≡ false)
    × (is_empty pass ≡ false)

userinfo_has_credentials-Credentials : (s : Str) → userinfo_has_credentials s ≡ true → Credentials s
unfolding userinfo_has_credentials
userinfo_has_credentials-Credentials s h = elim (Option-cases (split_once b'@' s)) [
  | inl e ↦ absurd (let h' = rw (e, userinfo_has_credentials) at h in cc)
  | inr ((info, post), e) ↦ elim (Option-cases (split_once b':' info)) [
    | inl k ↦ absurd (let h' = rw k at (rw (e, userinfo_has_credentials) at h) in cc)
    | inr ((user, pass), k) ↦
        (let h' : (not (is_empty user) && not (is_empty pass)) ≡ true =
            rw k at (rw (e, userinfo_has_credentials) at h) in
          let (eq, l) = split_once-eq-some b'@' s info post e in
          let (eq', l') = split_once-eq-some b':' info user pass k in
          (
            user,
            pass,
            post,
            eq ∙ ap (λ t. t ++ (b'@' ∷ post)) eq',
            rw eq' at l,
            l',
            ground arith,
            ground arith,
          ))
  ]
]

pub has_url-Sensitive :
    (content : Str)
    → content_has_credentialed_db_url content ≡ true
    → Sensitive content database_url
unfolding content_has_credentialed_db_url
has_url-Sensitive content h =
    let (scheme, m, t) =
      Among-any (λ scheme. any_match scheme userinfo_has_credentials content) db_url_schemes h in
    let (pre, rest, e, c) = any_match-occurs scheme userinfo_has_credentials content t in
    let (user, pass, post, e', l, l', nu, np) = userinfo_has_credentials-Credentials rest c in
    url scheme pre user pass post m (e ∙ ap (λ t. pre ++ (scheme ++ t)) e') l l' nu np

pub has_url :
    (content scheme pre rest : Str)
    → Among scheme db_url_schemes
    → content ≡ pre ++ (scheme ++ rest)
    → userinfo_has_credentials rest ≡ true
    → content_has_credentialed_db_url content ≡ true
unfolding content_has_credentialed_db_url
has_url content scheme pre rest m e c =
    let f = All-at (λ s. is_border_free s ≡ true) db_url_schemes schemes_border_free m in
    rw e (
      any_of (λ s. any_match s userinfo_has_credentials (pre ++ (scheme ++ rest))) db_url_schemes m
        (any_match_of scheme userinfo_has_credentials pre rest f c))

pem_trailer-Lacks : Lacks 10 pem_trailer
pem_trailer-Lacks = (
  refl,
  (
    refl,
    (
      refl,
      (
        refl,
        (
          refl,
          (
            refl,
            (refl, (refl, (refl, (refl, (refl, (refl, (refl, (refl, (refl, (refl, tt)))))))))),
          ),
        ),
      ),
    ),
  ),
)

pem_border_free : is_border_free pem_header ≡ true
unfolding is_border_free
pem_border_free = refl

line_ends_lem : (s : Str) → line_ends_with_trailer s ≡ ends_with (line_of s) pem_trailer
unfolding line_ends_with_trailer first_line ends_with before str_eq
line_ends_lem [] = refl
line_ends_lem (c ∷ s) = refl

pub has_pem-Sensitive :
    (content : Str) → content_has_pem_private_key content ≡ true → Sensitive content private_key
unfolding content_has_pem_private_key
has_pem-Sensitive content h =
    let (pre, rest, e, t) = any_match-occurs pem_header line_ends_with_trailer content h in
    let (eol, cut, l, at) = line_of_cut rest in
    let (label, k) =
      ends_with-eq-append (line_of rest) pem_trailer (sym (line_ends_lem rest) ∙ t) in
    pem pre label eol (e ∙ ap (λ u. pre ++ (pem_header ++ u)) (cut ∙ ap (λ u. u ++ eol) k))
      (Lacks-front label pem_trailer (rw k at l)) at

pub has_pem :
    (content pre label eol : Str)
    → content ≡ pre ++ (pem_header ++ ((label ++ pem_trailer) ++ eol))
    → Lacks 10 label
    → AtLineEnd eol
    → content_has_pem_private_key content ≡ true
unfolding content_has_pem_private_key strip_final_cr
has_pem content pre label eol e l at =
    let t : line_ends_with_trailer ((label ++ pem_trailer) ++ eol) ≡ true =
      line_ends_lem ((label ++ pem_trailer) ++ eol)
      ∙ ap (λ u. ends_with u pem_trailer)
          (line_of_append label b'P' (codes "RIVATE KEY-----") eol
            (Lacks-append label pem_trailer l pem_trailer-Lacks) refl at)
      ∙ ends_with_append label pem_trailer in
    rw e (
      any_match_of pem_header line_ends_with_trailer pre ((label ++ pem_trailer) ++ eol)
        pem_border_free t)
