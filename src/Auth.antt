-- ===== src/Auth.antt =====
-- app/inbound/auth.py. `base64.b64decode` with the UTF-8 decoding behind it is a parameter: `none`
-- where one of them raises what the code catches, an exception where it raises another.
pub mod Sound
use naesb_edi.Base.{
  ◌≡◌, refl, Bool, true, false, ◌&&◌, Option, none, some, List, [], ◌∷◌, Text, Python, Result, ok,
  err, ◌>>=◌, codes, equal, strip, partition, truthy, if◌then◌else◌,
}
use naesb_edi.Exceptions.{Exception}
use naesb_edi.Partners.{
  AuthConfig, basic_auth, api_key_auth, PartnerConfig, PartnerRegistry, partners_of,
}
use naesb_edi.Settings.{Environ, resolve_env}

-- `secrets.compare_digest`, which raises on texts that are not ASCII, is a parameter as well.
pub record AuthEnv : Type 0 where
  pub b64decode : Text → Result Exception (Option Text)
  pub compare_digest : Text → Text → Result Exception Bool

module _ (py : Python) (env : AuthEnv) (environ : Environ) where
  abbrev pub check_decoded : Option Text → Text → Text → Result Exception Bool
  check_decoded none username password_env = ok false
  check_decoded (some decoded) username password_env = do
    let (given, password) = partition b':' decoded
    username_ok ← env.compare_digest given username
    configured ← resolve_env environ password_env
    password_ok ← env.compare_digest password configured
    ok (username_ok && password_ok)

  unfoldable pub check_basic : Text → Text → Text → Result Exception Bool
  check_basic encoded username password_env = do
    decoded ← env.b64decode encoded
    check_decoded decoded username password_env

  -- One partner of the loop: whether the header authenticates it.
  unfoldable pub accepts : Text → Text → AuthConfig → Result Exception Bool
  unfolding check_basic
  accepts scheme v (basic_auth username password_env) =
      if equal scheme (codes "basic") then check_basic v username password_env else ok false
  accepts scheme v (api_key_auth key_env) =
      if equal scheme (codes "bearer")
      then (do key ← resolve_env environ key_env; env.compare_digest v key)
      else ok false

  unfoldable pub find_partner :
      Text → Text → List PartnerConfig → Result Exception (Option PartnerConfig)
  find_partner scheme v [] = ok none
  find_partner scheme v (p ∷ ps) = do
    let rest = find_partner scheme v ps
    matched ← accepts scheme v p.inbound_auth
    if matched then ok (some p) else rest

  abbrev authenticate_header :
      Option Text → List PartnerConfig → Result Exception (Option PartnerConfig)
  authenticate_header (some (c ∷ cs)) partners =
      let (scheme, v) = partition b' ' (c ∷ cs) in
      find_partner (py.lower (strip scheme)) (strip v) partners
  authenticate_header _ partners = ok none

  unfoldable pub authenticate_inbound :
      Option Text → PartnerRegistry → Result Exception (Option PartnerConfig)
  authenticate_inbound authorization_header partners =
      authenticate_header authorization_header (partners_of partners)
