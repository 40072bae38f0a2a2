-- ===== src/Xtask/Bans/Denied.antt =====
-- What it means that a deny.toml denies a crate, and that the names read from it are such.
use development_kit.Prelude.{
  ℕ, ==_iff, ◌≡◌, refl, sym, ap, ◌∙◌, ◌⊎◌, inl, inr, Str, codes, some, Option-cases, Bool, true,
  ◌==◌, Bool-cases, List, [], ◌∷◌, ◌++◌, is_empty, Among, first, later, ok, Result-cases,
  if◌then◌else◌,
}
use development_kit.Text.Search.{before}
use development_kit.Xtask.Bans.{
  Toml, spec_crate_name, entry_name, entry_names, denied_in_value, denied_crates_in_config,
}

-- Nothing, or a version that is set off by `@` or `:`.
abbrev pub IsVersion : Str → Type 0
IsVersion [] = Unit {0}
IsVersion (c ∷ s) = (c ≡ b'@') ⊎ (c ≡ b':')

abbrev separates : ℕ → Bool
separates c = if c == b'@' then true else c == b':'

separates-eq : (c : ℕ) → separates c ≡ true → (c ≡ b'@') ⊎ (c ≡ b':')
separates-eq c h = elim (Bool-cases (c == b'@')) [
  | inl t ↦ inl ((==_iff c b'@').0 t)
  | inr f ↦ inr ((==_iff c b':').0 (rw f at h))
]

before_rest : (s : Str) → (rest : Str) × (s ≡ before separates s ++ rest) × IsVersion rest
unfolding before
before_rest [] = ([], refl, tt)
before_rest (c ∷ s) = elim (Bool-cases (separates c)) [
  | inl t ↦ (c ∷ s, rw t refl, separates-eq c t)
  | inr f ↦ (let (rest, e, v) = before_rest s in (rest, rw f (ap (λ l. c ∷ l) e), v))
]

spec_crate_name-eq :
    (spec name : Str)
    → spec_crate_name spec ≡ some name
    → (rest : Str) × (spec ≡ name ++ rest) × IsVersion rest
unfolding spec_crate_name
spec_crate_name-eq spec name h = elim (Bool-cases (is_empty (before separates spec))) [
  | inl t ↦ absurd (let h' = rw t at h in cc)
  | inr f ↦
      (let (rest, e, v) = before_rest spec in
        let same : before separates spec ≡ name = (let h' = rw f at h in cc) in
        (rest, e ∙ ap (λ n. n ++ rest) same, v))
]

module _ (toml : Toml) where
  -- How one entry of the array names a crate: as a text, alone or with a version, or as a table.
  pub data Names (name : Str) (entry : toml.Value) : Type 0 where
    spec :
        (rest : Str) → toml.as_str entry ≡ some (name ++ rest) → IsVersion rest → Names name entry
    table :
        (value : toml.Value)
        → toml.get entry (codes "name") ≡ some value
        → toml.as_str value ≡ some name
        → Names name entry

  -- The text is TOML whose array `deny` of the table `bans` has an entry that names the crate.
  pub record IsDenied (text name : Str) : Type 0 where
    pub value : toml.Value
    pub bans : toml.Value
    pub deny : toml.Value
    pub entries : List toml.Value
    pub entry : toml.Value
    pub parsed : toml.from_str text ≡ ok value
    pub has_bans : toml.get value (codes "bans") ≡ some bans
    pub has_deny : toml.get bans (codes "deny") ≡ some deny
    pub is_array : toml.as_array deny ≡ some entries
    pub listed : Among entry entries
    pub names : Names name entry

  entry_name-Names :
      (entry : toml.Value) (name : Str) → entry_name toml entry ≡ some name → Names name entry
  unfolding entry_name
  entry_name-Names entry name h = elim (Option-cases (toml.as_str entry)) [
    | inr (text, e) ↦
        (let (rest, same, v) = spec_crate_name-eq text name (rw (e, entry_name) at h) in
          spec rest (e ∙ ap some same) v)
    | inl e ↦ elim (Option-cases (toml.get entry (codes "name"))) [
      | inl n ↦ absurd (let h' = rw n at (rw (e, entry_name) at h) in cc)
      | inr (value, v) ↦ table value v (rw v at (rw (e, entry_name) at h))
    ]
  ]

  head_or_later :
      (entry : toml.Value) (entries : List toml.Value) (name head : Str)
      → entry_name toml entry ≡ some head
      → (Among name (entry_names toml entries) → (x : toml.Value) × Among x entries × Names name x)
      → Among name (head ∷ entry_names toml entries)
      → (x : toml.Value) × Among x (entry ∷ entries) × Names name x
  head_or_later entry entries name head e rest (first same) =
      (entry, first refl, entry_name-Names entry name (e ∙ ap some (sym same)))
  head_or_later entry entries name head e rest (later m) =
      let (x, at, n) = rest m in (x, later at, n)

  entry_names-Names :
      (entries : List toml.Value) (name : Str)
      → Among name (entry_names toml entries)
      → (entry : toml.Value) × Among entry entries × Names name entry
  unfolding entry_names
  entry_names-Names [] name m = elim m [ ]
  entry_names-Names (entry ∷ entries) name m = elim (Option-cases (entry_name toml entry)) [
    | inl e ↦
        (let (x, at, n) = entry_names-Names entries name (rw (e, entry_names) at m) in
          (x, later at, n))
    | inr (head, e) ↦
        head_or_later entry entries name head e (λ n. entry_names-Names entries name n)
          (rw (e, entry_names) at m)
  ]

  denied_in_value-IsDenied :
      (text name : Str) (value : toml.Value)
      → toml.from_str text ≡ ok value
      → Among name (denied_in_value toml value)
      → IsDenied text name
  unfolding denied_in_value
  denied_in_value-IsDenied text name value p m =
      elim (Option-cases (toml.get value (codes "bans"))) [
        | inl b ↦ elim (rw (b, denied_in_value) at m) [ ]
        | inr (bans, b) ↦ elim (Option-cases (toml.get bans (codes "deny"))) [
          | inl d ↦ elim (rw d at (rw (b, denied_in_value) at m)) [ ]
          | inr (deny, d) ↦ elim (Option-cases (toml.as_array deny)) [
            | inl a ↦ elim (rw a at (rw d at (rw (b, denied_in_value) at m))) [ ]
            | inr (entries, a) ↦
                (let (entry, at, n) =
                    entry_names-Names entries name
                      (rw a at (rw d at (rw (b, denied_in_value) at m))) in
                  record {
                    value = value;
                    bans = bans;
                    deny = deny;
                    entries = entries;
                    entry = entry;
                    parsed = p;
                    has_bans = b;
                    has_deny = d;
                    is_array = a;
                    listed = at;
                    names = n;
                  })
          ]
        ]
      ]

  pub denied_crates_in_config-IsDenied :
      (text name : Str) (denied : List Str)
      → denied_crates_in_config toml text ≡ ok denied
      → Among name denied
      → IsDenied text name
  unfolding denied_crates_in_config
  denied_crates_in_config-IsDenied text name denied h m = elim (Result-cases (toml.from_str text)) [
    | inr (e, p) ↦ absurd (let h' = rw (p, denied_crates_in_config) at h in cc)
    | inl (value, p) ↦ denied_in_value-IsDenied text name value p (
        let h' = rw (p, denied_crates_in_config) at h in
        let same : denied ≡ denied_in_value toml value = cc in rw same at m)
  ]
