-- ===== src/Internal.antt =====
-- app/api/partners.py and app/api/health.py: the internal API's authentication, which app/api/send.py
-- puts in front of its routes too, the listing of the partners, and the two health routes. The
-- credentials are those that fastapi's `HTTPBasic` read.
use naesb_edi.Base.{
  ◌≡◌, refl, ap, ◌∙◌, ◌⊎◌, inl, inr, Bool, true, not, ◌&&◌, List, [], ◌∷◌, map, Text, Result, ok,
  err, ◌>>=◌, Result-cases, >>=-eq-ok, codes, is_some, if◌then◌else◌, arith,
}
use naesb_edi.Base.Dict.{Dict}
use naesb_edi.Auth.{AuthEnv}
use naesb_edi.Effects.{Action, continue}
use naesb_edi.Exceptions.{Exception, http}
use naesb_edi.Partners.{PartnerConfig, PartnerRegistry, partners_of}
use naesb_edi.Settings.{Environ, Settings, username, password}

pub record Credentials : Type 0 where
  pub username : Text
  pub password : Text

pub record PartnerSummary : Type 0 where
  pub name : Text
  pub duns : Text
  pub endpoint_url : Text
  pub has_envelope_overrides : Bool

module _ (env : AuthEnv) (environ : Environ) (settings : Settings) where
  -- Both are compared before either is looked at.
  unfoldable pub require_internal_auth : Credentials → Result Exception (Unit {0})
  unfolding username password
  require_internal_auth credentials = do
    configured ← username environ settings.internal_api
    valid_username ← env.compare_digest credentials.username configured
    secret ← password environ settings.internal_api
    valid_password ← env.compare_digest credentials.password secret
    if not (valid_username && valid_password) then err (http 401 (codes "unauthorized")) else ok tt

  -- A route that depends on it.
  unfoldable pub guarded : {S A : Type 0} → Credentials → Action S A → Action S A
  unfolding require_internal_auth
  guarded credentials route s = continue (require_internal_auth credentials, s) (λ _. route)

abbrev summary : PartnerConfig → PartnerSummary
summary partner = record {
  name = partner.name;
  duns = partner.duns;
  endpoint_url = partner.endpoint_url;
  has_envelope_overrides = is_some partner.envelope_overrides;
}

unfoldable pub list_partners : PartnerRegistry → List PartnerSummary
list_partners partners = map summary (partners_of partners)

unfoldable pub healthz : Dict Text
healthz = (codes "status", codes "ok") ∷ []

unfoldable pub readyz : Dict Text
readyz = (codes "status", codes "ready") ∷ []

both_valid :
    (a b : Bool)
    → Path
        (Result Exception (Unit {0}))
        (if not (a && b) then err (http 401 (codes "unauthorized")) else ok tt)
        (ok tt)
    → (a ≡ true) × (b ≡ true)
both_valid a b h = ground arith

-- The credentials given are the configured ones, as far as `compare_digest` says.
pub record AreConfigured (env : AuthEnv) (environ : Environ) (settings : Settings)
    (credentials : Credentials) : Type 0 where
  pub name : Text
  pub secret : Text
  pub has_name : username environ settings.internal_api ≡ ok name
  pub has_secret : password environ settings.internal_api ≡ ok secret
  pub name_matches : env.compare_digest credentials.username name ≡ ok true
  pub secret_matches : env.compare_digest credentials.password secret ≡ ok true

module _ (env : AuthEnv) (environ : Environ) (settings : Settings) (credentials : Credentials) where
  require_internal_auth-AreConfigured :
      require_internal_auth env environ settings credentials ≡ ok tt
      → AreConfigured env environ settings credentials
  unfolding require_internal_auth
  require_internal_auth-AreConfigured h =
      let (name, has_name, h2) = >>=-eq-ok (username environ settings.internal_api) _ h in
      let (valid_name, name_matches, h3) =
        >>=-eq-ok (env.compare_digest credentials.username name) _ h2 in
      let (secret, has_secret, h4) = >>=-eq-ok (password environ settings.internal_api) _ h3 in
      let (valid_secret, secret_matches, h5) =
        >>=-eq-ok (env.compare_digest credentials.password secret) _ h4 in
      let both : (valid_name ≡ true) × (valid_secret ≡ true) =
        both_valid valid_name valid_secret h5 in
      record {
        name = name;
        secret = secret;
        has_name = has_name;
        has_secret = has_secret;
        name_matches = name_matches ∙ ap ok both.0;
        secret_matches = secret_matches ∙ ap ok both.1;
      }

  -- A route behind the internal API's authentication runs, as if it stood alone, only for the
  -- configured user and password; any other request is answered by an exception and changes nothing.
  pub guarded-AreConfigured :
      {S A : Type 0} (route : Action S A) (s : S)
      → (AreConfigured env environ settings credentials
          × (guarded env environ settings credentials route s ≡ route s))
        ⊎ ((e : Exception) × (guarded env environ settings credentials route s ≡ (err e, s)))
  unfolding guarded
  guarded-AreConfigured route s =
      elim (Result-cases (require_internal_auth env environ settings credentials)) [
        | inl (u, passed) ↦ inl (require_internal_auth-AreConfigured passed, rw passed refl)
        | inr (e, refused) ↦ inr (e, rw refused refl)
      ]
