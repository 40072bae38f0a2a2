-- ===== src/Xtask/Registry/Scopes.antt =====
-- Tokens and scopes.
use development_kit.Prelude.{
  ◌≡◌, refl, sym, ap, ◌∙◌, ◌↔◌, inl, inr, Str, Option, none, some, Bool-cases, List, [], ◌∷◌, ok,
  ok_or, str_eq, str_eq→eq,
}
use development_kit.Xtask.Registry.{
  Scope, desktop, api, frontend, db, billing, security, prd, every, all_scopes, as_str, find_scope,
  parse,
}

find_scope-as_str :
    (token : Str) (s : Scope) (ss : List Scope) → find_scope token ss ≡ some s → as_str s ≡ token
unfolding find_scope
find_scope-as_str token s [] h = cc
find_scope-as_str token s (t ∷ ts) h = elim (Bool-cases (str_eq (as_str t) token)) [
  | inl e ↦
      (let h' : some t ≡ some s = rw e at h in
        let same : t ≡ s = cc in ap as_str (sym same) ∙ str_eq→eq (as_str t) token e)
  | inr f ↦ find_scope-as_str token s ts (rw f at h)
]

parse-as_str : (s : Scope) → parse (as_str s) ≡ ok s
unfolding parse find_scope as_str str_eq
parse-as_str desktop = refl
parse-as_str api = refl
parse-as_str frontend = refl
parse-as_str db = refl
parse-as_str billing = refl
parse-as_str security = refl
parse-as_str prd = refl
parse-as_str every = refl

ok_or-eq :
    (token : Str) (message : Str) (s : Scope) (o : Option Scope)
    → ok_or o message ≡ ok s
    → o ≡ some s
ok_or-eq token message s none h = cc
ok_or-eq token message s (some t) h = cc

-- A token parses to a scope exactly when it is that scope's token: every scope can be selected, and
-- no other text selects one.
pub parse_iff : (token : Str) (s : Scope) → (parse token ≡ ok s) ↔ (as_str s ≡ token)
unfolding parse
parse_iff token s = (
  λ h. find_scope-as_str token s all_scopes (ok_or-eq token _ s (find_scope token all_scopes) h),
  λ e. rw (← e) (parse-as_str s),
)
