-- ===== src/Effects.antt =====
-- Handlers that change the state and may raise. What was written before a raise stays written.
use naesb_edi.Base.{Result, ok, err}
use naesb_edi.Exceptions.{Exception}

abbrev pub Action {ℓ κ} : Type ℓ → Type κ → Type (ℓ ⊔ κ)
Action S A = S → Result Exception A × S

module _ {ℓ κ} {S : Type ℓ} {A : Type κ} where
  abbrev pub pure : A → Action S A
  pure a s = (ok a, s)

  abbrev pub raise : Exception → Action S A
  raise e s = (err e, s)

  abbrev pub lift : Result Exception A → Action S A
  lift r s = (r, s)

  -- `try: ... except Exception as exc: handler(exc)`
  abbrev pub handled : Result Exception A × S → (Exception → Action S A) → Result Exception A × S
  handled (ok a, s) h = (ok a, s)
  handled (err e, s) h = h e s

  abbrev pub catch : Action S A → (Exception → Action S A) → Action S A
  catch m h s = handled (m s) h

module _ {ℓ} {S : Type ℓ} where
  abbrev pub modify : (S → S) → Action S (Unit {0})
  modify f s = (ok tt, f s)

module _ {ℓ κ μ} {S : Type ℓ} {A : Type κ} {B : Type μ} where
  abbrev pub continue : Result Exception A × S → (A → Action S B) → Result Exception B × S
  continue (ok a, s) f = f a s
  continue (err e, s) f = (err e, s)

  infixl 5 ◌>>=◌ ◌>>◌
  abbrev pub ◌>>=◌ : Action S A → (A → Action S B) → Action S B
  ◌>>=◌ m f s = continue (m s) f

  abbrev pub ◌>>◌ : Action S A → Action S B → Action S B
  m >> n = m >>= λ _. n
