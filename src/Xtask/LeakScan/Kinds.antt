-- ===== src/Xtask/LeakScan/Kinds.antt =====
-- The loop of `scan_text` over the prefix rules: what it collects, each kind once.
use development_kit.Prelude.{
  ◌≡◌, refl, arith, ◌⊎◌, inl, inr, Str, Bool, true, false, not, ◌&&◌, Bool-cases, List, [], ◌∷◌,
  ◌++◌, any, Among-any, Among, first, later, Among-append_left, Among-append_right, append-Among,
  if◌then◌else◌,
}
use development_kit.Xtask.LeakScan.Matchers.{
  SecretKind, stripe_secret_key, stripe_webhook_secret, database_url, private_key, kind_eq,
  PrefixRule, content_has_prefixed_token, push_new, scan_rules,
}

kind_eq→eq : (a b : SecretKind) → kind_eq a b ≡ true → a ≡ b
kind_eq→eq stripe_secret_key stripe_secret_key h = refl
kind_eq→eq stripe_webhook_secret stripe_webhook_secret h = refl
kind_eq→eq database_url database_url h = refl
kind_eq→eq private_key private_key h = refl
kind_eq→eq _ _ h = cc

kind_eq_refl : (a : SecretKind) → kind_eq a a ≡ true
kind_eq_refl stripe_secret_key = refl
kind_eq_refl stripe_webhook_secret = refl
kind_eq_refl database_url = refl
kind_eq_refl private_key = refl

-- What `push_new` adds, what it keeps, and that it adds where its test succeeds.
pub push_new-Among :
    (k kind : SecretKind) (test : Bool) (found : List SecretKind)
    → Among k (push_new kind test found)
    → Among k found ⊎ ((k ≡ kind) × (test ≡ true))
unfolding push_new
push_new-Among k kind false found m = elim (Bool-cases (any (kind_eq kind) found)) [
  | inl t ↦ inl (rw t at m)
  | inr f ↦ inl (rw f at m)
]
push_new-Among k kind true found m = elim (Bool-cases (any (kind_eq kind) found)) [
  | inl t ↦ inl (rw t at m)
  | inr f ↦ elim (append-Among found (kind ∷ []) (rw f at m)) [
    | inl old ↦ inl old
    | inr (first e) ↦ inr (e, refl)
    | inr (later n) ↦ elim n [ ]
  ]
]

pub Among-push_new :
    (k kind : SecretKind) (test : Bool) (found : List SecretKind)
    → Among k found
    → Among k (push_new kind test found)
unfolding push_new
Among-push_new k kind test found m = elim (Bool-cases (not (any (kind_eq kind) found) && test)) [
  | inl t ↦ rw t (Among-append_left found (kind ∷ []) m)
  | inr f ↦ rw f m
]

pub pushed_Among :
    (kind : SecretKind) (test : Bool) (found : List SecretKind)
    → test ≡ true
    → Among kind (push_new kind test found)
unfolding push_new
pushed_Among kind test found h = elim (Bool-cases (any (kind_eq kind) found)) [
  | inl t ↦ rw t (let (k, m, e) = Among-any (kind_eq kind) found t in rw (kind_eq→eq kind k e) m)
  | inr f ↦ rw f (rw h (Among-append_right found (kind ∷ []) (first refl)))
]

-- No kind stands in the list twice.
abbrev pub Distinct : List SecretKind → Type 0
Distinct [] = Unit {0}
Distinct (k ∷ ks) = (any (kind_eq k) ks ≡ false) × Distinct ks

kind_ne : (j k : SecretKind) → kind_eq k j ≡ false → kind_eq j k ≡ false
kind_ne j k h = elim (Bool-cases (kind_eq j k)) [
  | inl t ↦ absurd (let e = kind_eq→eq j k t in cc (rw e at h, kind_eq_refl k))
  | inr f ↦ f
]

snoc_absent :
    (k j : SecretKind) (ks : List SecretKind)
    → kind_eq j k ≡ false
    → any (kind_eq j) ks ≡ false
    → any (kind_eq j) (ks ++ k ∷ []) ≡ false
snoc_absent k j [] h f = rw h refl
snoc_absent k j (i ∷ ks) h f = ground (arith, snoc_absent k j ks)

pub Distinct-if :
    (test : Bool) (a b : List SecretKind)
    → Distinct a
    → Distinct b
    → Distinct (if test then b else a)
Distinct-if true a b d e = e
Distinct-if false a b d e = d

pub snoc-Distinct :
    (k : SecretKind) (ks : List SecretKind)
    → any (kind_eq k) ks ≡ false
    → Distinct ks
    → Distinct (ks ++ k ∷ [])
snoc-Distinct k [] h d = (refl, tt)
snoc-Distinct k (j ∷ ks) h (f, d) =
    let not_j : kind_eq j k ≡ false = kind_ne j k (ground arith) in
    (snoc_absent k j ks not_j f, snoc-Distinct k ks (ground arith) d)

pub push_new-Distinct :
    (kind : SecretKind) (test : Bool) (found : List SecretKind)
    → Distinct found
    → Distinct (push_new kind test found)
unfolding push_new
push_new-Distinct kind test found d = elim (Bool-cases (any (kind_eq kind) found)) [
  | inl t ↦ rw t d
  | inr f ↦ rw f (Distinct-if test found (found ++ kind ∷ []) d (snoc-Distinct kind found f d))
]

pub scan_rules-Distinct :
    (content : Str) (rules : List PrefixRule) (found : List SecretKind)
    → Distinct found
    → Distinct (scan_rules content rules found)
unfolding scan_rules
scan_rules-Distinct content [] found d = d
scan_rules-Distinct content (r ∷ rules) found d =
    scan_rules-Distinct content rules _
      (push_new-Distinct r.kind (content_has_prefixed_token content r.prefix) found d)

-- The kinds in the loop's result: those before it, and those of the rules that match.
pub scan_rules-Among :
    (content : Str) (k : SecretKind) (rules : List PrefixRule) (found : List SecretKind)
    → Among k (scan_rules content rules found)
    → Among k found
      ⊎ ((rule : PrefixRule) × Among rule rules
          × (k ≡ rule.kind)
          × (content_has_prefixed_token content rule.prefix ≡ true))
unfolding scan_rules
scan_rules-Among content k [] found m = inl m
scan_rules-Among content k (r ∷ rules) found m = elim (scan_rules-Among content k rules _ m) [
  | inr (rule, a, e, t) ↦ inr (rule, later a, e, t)
  | inl old ↦ elim (push_new-Among k r.kind _ found old) [
    | inl older ↦ inl older
    | inr (e, t) ↦ inr (r, first refl, e, t)
  ]
]

Among-scan_rules :
    (content : Str) (k : SecretKind) (rules : List PrefixRule) (found : List SecretKind)
    → Among k found
    → Among k (scan_rules content rules found)
unfolding scan_rules
Among-scan_rules content k [] found m = m
Among-scan_rules content k (r ∷ rules) found m =
    Among-scan_rules content k rules _ (Among-push_new k r.kind _ found m)

pub rule_Among :
    (content : Str) (rule : PrefixRule) (rules : List PrefixRule) (found : List SecretKind)
    → Among rule rules
    → content_has_prefixed_token content rule.prefix ≡ true
    → Among rule.kind (scan_rules content rules found)
unfolding scan_rules
rule_Among content rule [] found m t = elim m [ ]
rule_Among content rule (r ∷ rules) found (first e) t =
    Among-scan_rules content rule.kind rules _ (rw e (pushed_Among r.kind _ found (rw e at t)))
rule_Among content rule (r ∷ rules) found (later m) t = rule_Among content rule rules _ m t
