-- ===== src/Api/Principal.antt =====
-- services/api/src/principal.rs and auth.rs: who is calling. The principal store is a trait: it
-- enters as the function `resolve` from tokens to principals.
use development_kit.Prelude.{
  Str, codes, Option, Result, ok, err, ◌>>=◌, ok_or, is_empty, if◌then◌else◌,
}
use development_kit.Text.{split_once, trim, eq_ignore_ascii_case}

pub data Role : Type 0 where
  owner admin member : Role

pub record Principal : Type 0 where
  pub user_id : Str
  pub email : Str
  pub account_id : Str
  pub account_name : Str
  pub role : Role

pub data AuthError : Type 0 where
  missing_credentials invalid_token : AuthError

unfoldable pub bearer_token : Option Str → Result AuthError Str
bearer_token header = do
  line ← ok_or header missing_credentials
  (scheme, rest) ← ok_or (split_once b' ' line) missing_credentials
  let token = trim rest
  if eq_ignore_ascii_case scheme (codes "bearer")
      then (if is_empty token then err missing_credentials else ok token)
      else err missing_credentials

unfoldable pub resolve_principal :
    (Str → Option Principal) → Option Str → Result AuthError Principal
resolve_principal resolve auth_header = do
  token ← bearer_token auth_header
  ok_or (resolve token) invalid_token
