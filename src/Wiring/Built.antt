-- ===== src/Wiring/Built.antt =====
-- `_build_sinks` of app/main.py: the sinks have different names, and report under them.
use naesb_edi.Base.{
  ◌≡◌, refl, sym, ap, ◌∙◌, inl, inr, false, Option, none, some, List, [], ◌∷◌, ◌++◌, All,
  All-append, All-change, Text, ok, >>=-eq-ok, ok-injective, equal, arith, Bool-cases,
}
use naesb_edi.Settings.{
  Environ, Settings, FilesystemSinkConfig, S3SinkConfig, WebhookSinkConfig, access_key, secret_key,
}
use naesb_edi.Sinks.{InboundMessage, Sink}
use naesb_edi.Sinks.Backends.{
  BackendEnv, Outcome, done, failed, raised, caught, caught_all, filesystem_name, s3_name,
  webhook_name, filesystem_sink, s3_sink, webhook_sink,
}
use naesb_edi.Sinks.Kept.{AreDifferent, ReportsAs, IsNamed}
use naesb_edi.Wiring.{build_filesystem, s3_of, build_s3, webhook_of, build_webhook, build_sinks}

caught-ReportsAs : (name : Text) (o : Outcome) → ReportsAs name (caught name o)
caught-ReportsAs name done = refl
caught-ReportsAs name (failed m) = refl
caught-ReportsAs name (raised m) = tt

caught_all-ReportsAs : (name : Text) (o : Outcome) → ReportsAs name (caught_all name o)
caught_all-ReportsAs name done = refl
caught_all-ReportsAs name (failed m) = refl
caught_all-ReportsAs name (raised m) = refl

module _ (env : BackendEnv) (environ : Environ) (message : InboundMessage) where
  -- No sink, or one of this name, which reports under it.
  abbrev AtMost : Text → List Sink → Type 0
  AtMost name ss = All (λ (s : Sink). (s.name ≡ name) × IsNamed message s) ss × AreDifferent ss

  build_filesystem-AtMost :
      (c : FilesystemSinkConfig) → AtMost filesystem_name (build_filesystem env environ c)
  unfolding build_filesystem filesystem_sink
  build_filesystem-AtMost c = elim (Bool-cases c.enabled) [
    | inr off ↦ rw off (tt, tt)
    | inl on ↦ rw on (((refl, caught-ReportsAs filesystem_name _), tt), (tt, tt))
  ]

  s3_of-AtMost :
      (c : S3SinkConfig) (ss : List Sink) → s3_of env environ c ≡ ok ss → AtMost s3_name ss
  unfolding s3_of s3_sink
  s3_of-AtMost c ss h =
      let (access, h1, h2) = >>=-eq-ok (access_key environ c) _ h in
      let (secret, h3, h4) = >>=-eq-ok (secret_key environ c) _ h2 in
      let same = ok-injective h4 in
      rw (sym same) (((refl, caught_all-ReportsAs s3_name _), tt), (tt, tt))

  build_s3-AtMost :
      (o : Option S3SinkConfig) (ss : List Sink)
      → build_s3 env environ o ≡ ok ss
      → AtMost s3_name ss
  unfolding build_s3
  build_s3-AtMost none ss h = rw (sym (ok-injective h)) (tt, tt)
  build_s3-AtMost (some c) ss h = elim (Bool-cases c.enabled) [
    | inr off ↦ let e : ok [] ≡ ok ss = sym (rw off refl) ∙ h in rw (sym (ok-injective e)) (tt, tt)
    | inl on ↦ let e : s3_of env environ c ≡ ok ss = sym (rw on refl) ∙ h in s3_of-AtMost c ss e
  ]

  webhook_of-AtMost :
      (url : Option Text) (ss : List Sink)
      → webhook_of env environ url ≡ ok ss
      → AtMost webhook_name ss
  unfolding webhook_sink
  webhook_of-AtMost none ss h = absurd (ground arith)
  webhook_of-AtMost (some url) ss h =
      rw (sym (ok-injective h)) (((refl, caught-ReportsAs webhook_name _), tt), (tt, tt))

  build_webhook-AtMost :
      (c : WebhookSinkConfig) (ss : List Sink)
      → build_webhook env environ c ≡ ok ss
      → AtMost webhook_name ss
  unfolding build_webhook
  build_webhook-AtMost c ss h = elim (Bool-cases c.enabled) [
    | inr off ↦ let e : ok [] ≡ ok ss = sym (rw off refl) ∙ h in rw (sym (ok-injective e)) (tt, tt)
    | inl on ↦
        let e : webhook_of env environ c.url ≡ ok ss = sym (rw on refl) ∙ h in
        webhook_of-AtMost c.url ss e
  ]

-- Sinks of one name in front of sinks of other names.
append-AreDifferent :
    (name : Text) (xs ys : List Sink)
    → All (λ (s : Sink). s.name ≡ name) xs
    → AreDifferent xs
    → All (λ (s : Sink). equal s.name name ≡ false) ys
    → AreDifferent ys
    → AreDifferent (xs ++ ys)
append-AreDifferent name [] ys n h m k = k
append-AreDifferent name (x ∷ xs) ys n h m k = (
  All-append (λ (s : Sink). equal s.name x.name ≡ false) xs ys h.0 (rw n.0 m),
  append-AreDifferent name xs ys n.1 h.1 m k,
)

names_of :
    (message : InboundMessage) (name : Text) (ss : List Sink)
    → All (λ (s : Sink). (s.name ≡ name) × IsNamed message s) ss
    → All (λ (s : Sink). s.name ≡ name) ss
names_of message name ss h =
    All-change (λ (s : Sink). (s.name ≡ name) × IsNamed message s) (λ s. s.name ≡ name) ss
      (λ s k. k.0) h

IsNamed-of :
    (message : InboundMessage) (name : Text) (ss : List Sink)
    → All (λ (s : Sink). (s.name ≡ name) × IsNamed message s) ss
    → All (IsNamed message) ss
IsNamed-of message name ss h =
    All-change (λ (s : Sink). (s.name ≡ name) × IsNamed message s) (IsNamed message) ss (λ s k. k.1)
      h

other_names :
    (a b : Text) (ss : List Sink)
    → equal a b ≡ false
    → All (λ (s : Sink). s.name ≡ a) ss
    → All (λ (s : Sink). equal s.name b ≡ false) ss
other_names a b ss e h =
    All-change (λ (s : Sink). s.name ≡ a) (λ s. equal s.name b ≡ false) ss
      (λ s k. ap (λ t. equal t b) k ∙ e) h

s3_other : equal s3_name filesystem_name ≡ false
unfolding equal
s3_other = refl

webhook_other : equal webhook_name filesystem_name ≡ false
unfolding equal
webhook_other = refl

webhook_other' : equal webhook_name s3_name ≡ false
unfolding equal
webhook_other' = refl

pub build_sinks-AreDifferent :
    (env : BackendEnv) (environ : Environ) (message : InboundMessage) (settings : Settings)
    (sinks : List Sink)
    → build_sinks env environ settings ≡ ok sinks
    → All (IsNamed message) sinks × AreDifferent sinks
unfolding build_sinks
build_sinks-AreDifferent env environ message settings sinks h =
    let (s3, h1, h2) = >>=-eq-ok (build_s3 env environ settings.sinks.s3) _ h in
    let (webhook, h3, h4) = >>=-eq-ok (build_webhook env environ settings.sinks.webhook) _ h2 in
    let files = build_filesystem env environ settings.sinks.filesystem in
    let (fn, fd) = build_filesystem-AtMost env environ message settings.sinks.filesystem in
    let (sn, sd) = build_s3-AtMost env environ message settings.sinks.s3 s3 h1 in
    let (wn, wd) = build_webhook-AtMost env environ message settings.sinks.webhook webhook h3 in
    let fnames = names_of message filesystem_name files fn in
    let snames = names_of message s3_name s3 sn in
    let wnames = names_of message webhook_name webhook wn in
    rw (sym (ok-injective h4)) (
      All-append (IsNamed message) files (s3 ++ webhook)
          (IsNamed-of message filesystem_name files fn)
          (All-append (IsNamed message) s3 webhook (IsNamed-of message s3_name s3 sn)
            (IsNamed-of message webhook_name webhook wn)),
      append-AreDifferent filesystem_name files (s3 ++ webhook) fnames fd
          (All-append (λ (s : Sink). equal s.name filesystem_name ≡ false) s3 webhook
            (other_names s3_name filesystem_name s3 s3_other snames)
            (other_names webhook_name filesystem_name webhook webhook_other wnames))
          (append-AreDifferent s3_name s3 webhook snames sd
            (other_names webhook_name s3_name webhook webhook_other' wnames) wd),
    )
