-- ===== src/Auth/Sound.antt =====
-- app/inbound/auth.py: who is let in.
use naesb_edi.Base.{
  ◌≡◌, ap, inl, inr, Bool, true, false, ◌&&◌, Option, none, some, List, [], ◌∷◌, Text, Python,
  Result, ok, refl, >>=-eq-ok, ok-injective, arith, if◌then◌else◌, ◌⊎◌, ◌∙◌, sym, equal, equal_iff,
  codes, partition, strip, Bool-cases,
}
use naesb_edi.Auth.{
  AuthEnv, check_basic, check_decoded, accepts, find_partner, authenticate_inbound,
}
use naesb_edi.Exceptions.{Exception}
use naesb_edi.Partners.{
  AuthConfig, basic_auth, api_key_auth, PartnerConfig, PartnerRegistry, partners_of,
}
use naesb_edi.Settings.{Environ, resolve_env}

both_true : (a b : Bool) → a && b ≡ true → (a ≡ true) × (b ≡ true)
both_true a b h = ground arith

module _ (py : Python) (env : AuthEnv) (environ : Environ) (scheme v : Text) where
  -- The header's scheme and value carry the credentials that are configured: the user and the password
  -- behind the base64 of a Basic header, or the key of a Bearer header.
  abbrev pub Presents : AuthConfig → Type 0
  Presents (basic_auth username password_env) =
      (scheme ≡ codes "basic")
      × (decoded : Text) × (password : Text) × (env.b64decode v ≡ ok (some decoded))
      × (env.compare_digest (partition b':' decoded).0 username ≡ ok true)
      × (resolve_env environ password_env ≡ ok password)
      × (env.compare_digest (partition b':' decoded).1 password ≡ ok true)
  Presents (api_key_auth key_env) =
      (scheme ≡ codes "bearer")
      × (key : Text) × (resolve_env environ key_env ≡ ok key)
      × (env.compare_digest v key ≡ ok true)

  from_decoded :
      (username password_env : Text)
      → scheme ≡ codes "basic"
      → (decoded : Option Text) → env.b64decode v ≡ ok decoded
      → check_decoded py env environ decoded username password_env ≡ ok true
      → Presents (basic_auth username password_env)
  from_decoded username password_env basic none d h = absurd (ground arith)
  from_decoded username password_env basic (some decoded) d h =
      let (given, password) = partition b':' decoded in
      let (username_ok, u, k) = >>=-eq-ok (env.compare_digest given username) _ h in
      let (configured, r, l) = >>=-eq-ok (resolve_env environ password_env) _ k in
      let (password_ok, q, m) =
        >>=-eq-ok (env.compare_digest password configured) (λ b. ok (username_ok && b)) l in
      let (x, y) = both_true username_ok password_ok (ok-injective m) in
      (basic, decoded, configured, d, u ∙ ap ok x, r, q ∙ ap ok y)

  check_basic-Presents :
      (username password_env : Text)
      → scheme ≡ codes "basic"
      → check_basic py env environ v username password_env ≡ ok true
      → Presents (basic_auth username password_env)
  unfolding check_basic
  check_basic-Presents username password_env basic h =
      let (decoded, d, k) = >>=-eq-ok (env.b64decode v) _ h in
      from_decoded username password_env basic decoded d k

  accepts-Presents :
      (auth : AuthConfig) → accepts py env environ scheme v auth ≡ ok true → Presents auth
  unfolding accepts
  accepts-Presents (basic_auth username password_env) h =
      elim (Bool-cases (equal scheme (codes "basic"))) [
        | inl same ↦
            check_basic-Presents username password_env ((equal_iff scheme (codes "basic")).0 same)
              (sym (rw same refl) ∙ h)
        | inr other ↦ absurd (ground (arith, other))
      ]
  accepts-Presents (api_key_auth key_env) h = elim (Bool-cases (equal scheme (codes "bearer"))) [
    | inl same ↦
        let (key, r, k) =
          >>=-eq-ok (resolve_env environ key_env) (env.compare_digest v) (sym (rw same refl) ∙ h) in
        ((equal_iff scheme (codes "bearer")).0 same, key, r, k)
    | inr other ↦ absurd (ground (arith, other))
  ]

  -- The partner stands in the list and its own credentials are presented; those before it are refused.
  abbrev pub IsFirstMatch : PartnerConfig → List PartnerConfig → Type 0
  IsFirstMatch p [] = ⊥
  IsFirstMatch p (q ∷ qs) =
      ((p ≡ q) × Presents q.inbound_auth)
      ⊎ ((accepts py env environ scheme v q.inbound_auth ≡ ok false) × IsFirstMatch p qs)

  match_step :
      (p q : PartnerConfig) (qs : List PartnerConfig)
      (rest : Result Exception (Option PartnerConfig)) (matched : Bool)
      → (rest ≡ ok (some p) → IsFirstMatch p qs)
      → accepts py env environ scheme v q.inbound_auth ≡ ok matched
      → (if matched then ok (some q) else rest) ≡ ok (some p)
      → IsFirstMatch p (q ∷ qs)
  match_step p q qs rest true k a h = inl (cc, accepts-Presents q.inbound_auth a)
  match_step p q qs rest false k a h = inr (a, k h)

  find_partner-IsFirstMatch :
      (partners : List PartnerConfig) (p : PartnerConfig)
      → find_partner py env environ scheme v partners ≡ ok (some p)
      → IsFirstMatch p partners
  unfolding find_partner
  find_partner-IsFirstMatch [] p h = absurd (ground arith)
  find_partner-IsFirstMatch (q ∷ qs) p h =
      let rest = find_partner py env environ scheme v qs in
      let (matched, a, k) =
        >>=-eq-ok (accepts py env environ scheme v q.inbound_auth)
          (λ m. if m then ok (some q) else rest) h in
      match_step p q qs rest matched (find_partner-IsFirstMatch qs p) a k

-- If the authentication returns a partner, the request has an Authorization header, whose scheme and
-- value carry that partner's own configured credentials, the user and the password of a Basic header or
-- the key of a Bearer header, each as `compare_digest` compares them; and every partner in front of it
-- was refused.
pub authenticate_inbound-IsFirstMatch :
    (py : Python) (env : AuthEnv) (environ : Environ) (authorization_header : Option Text)
    (partners : PartnerRegistry) (p : PartnerConfig)
    → authenticate_inbound py env environ authorization_header partners ≡ ok (some p)
    → (header : Text) × (authorization_header ≡ some header)
      × IsFirstMatch py env environ
          (py.lower (strip (partition b' ' header).0))
          (strip (partition b' ' header).1)
          p
          (partners_of partners)
unfolding authenticate_inbound
authenticate_inbound-IsFirstMatch py env environ none partners p h = absurd (ground arith)
authenticate_inbound-IsFirstMatch py env environ (some []) partners p h = absurd (ground arith)
authenticate_inbound-IsFirstMatch py env environ (some (c ∷ cs)) partners p h =
    (c ∷ cs, refl, find_partner-IsFirstMatch py env environ _ _ (partners_of partners) p h)
