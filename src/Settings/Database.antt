-- ===== src/Settings/Database.antt =====
-- `DatabaseConfig.url` and `_with_credentials` of app/settings.py.
use naesb_edi.Base.{
  ℕ, zero, suc, Option, none, some, [], ◌∷◌, ◌++◌, Text, Result, ok, ◌>>=◌, codes, decimal, not,
  ◌&&◌, is_some, if◌then◌else◌,
}
use naesb_edi.Exceptions.{Exception}
use naesb_edi.Settings.{Environ, DatabaseConfig, resolve_env}

-- The parts of `urllib.parse.urlsplit(url)` that the code reads. `port` is absent or a number.
pub record SplitResult : Type 0 where
  pub scheme : Text
  pub username : Option Text
  pub password : Option Text
  pub hostname : Option Text
  pub port : Option ℕ
  pub path : Text
  pub query : Text
  pub fragment : Text

-- `urlsplit`, which may raise, and `urlunsplit`.
pub record UrlEnv : Type 0 where
  pub urlsplit : Text → Result Exception SplitResult
  -- scheme, netloc, path, query and fragment
  pub urlunsplit : Text → Text → Text → Text → Text → Text

-- `a if a is not None else b`
abbrev if_given : Option Text → Option Text → Option Text
if_given none b = b
if_given (some a) b = some a

abbrev or_empty : Option Text → Text
or_empty none = []
or_empty (some t) = t

-- `{user}:{pwd}@`, `{user}@` or nothing; an empty one counts as none.
unfoldable pub userinfo : Text → Text → Text
userinfo [] pwd = []
userinfo (u ∷ us) [] = (u ∷ us) ++ codes "@"
userinfo (u ∷ us) (p ∷ ps) = (u ∷ us) ++ (codes ":" ++ ((p ∷ ps) ++ codes "@"))

-- `f":{port}" if port else ""`
unfoldable pub port_text : Option ℕ → Text
unfolding decimal
port_text none = []
port_text (some zero) = []
port_text (some (suc n)) = codes ":" ++ decimal (suc n)

unfoldable pub netloc : SplitResult → Option Text → Option Text → Text
unfolding userinfo port_text
netloc parts username password =
    userinfo (or_empty (if_given username parts.username))
      (or_empty (if_given password parts.password))
    ++ (or_empty parts.hostname ++ port_text parts.port)

module _ (url_env : UrlEnv) where
  unfoldable pub with_credentials : Text → Option Text → Option Text → Result Exception Text
  unfolding netloc
  with_credentials url username password = do
    parts ← url_env.urlsplit url
    ok (
        url_env.urlunsplit parts.scheme (netloc parts username password) parts.path parts.query
          parts.fragment)

  -- `resolve_env(v) if v else None`
  unfoldable pub resolve_if_set : Environ → Option Text → Result Exception (Option Text)
  unfolding resolve_env
  resolve_if_set environ (some (c ∷ cs)) = do value ← resolve_env environ (c ∷ cs); ok (some value)
  resolve_if_set environ _ = ok none

  -- `DatabaseConfig.url`
  unfoldable pub database_url : Environ → DatabaseConfig → Result Exception Text
  unfolding with_credentials resolve_if_set resolve_env
  database_url environ c = do
    base_url ← resolve_env environ c.url_env
    if not (is_some c.username_env) && not (is_some c.password_env) then ok base_url else (do
      username ← resolve_if_set environ c.username_env
      password ← resolve_if_set environ c.password_env
      with_credentials base_url username password)
