-- ===== src/Base/StringLaws.antt =====
-- What stripping, splitting and searching do to texts put together from parts.
use Prim.Native.Nat.{ℕ, zero, suc, ◌+◌, ◌/◌, ◌%◌}
use mathlib.Core.Path.{◌≡◌, refl}
use mathlib.Core.Bool.{Bool, true, false, not, ◌||◌}
use mathlib.Core.List.{[], ◌∷◌, ◌++◌}
use mathlib.Core.Option.{some}
use native.Mathlib.Omega.{arith}
use naesb_edi.Base.Lists.{all}
use naesb_edi.Base.Strings.{
  Text, strip, is_space, decimal, decimal_onto, truthy, strip_of, starts_with, contains, has,
  rstrip_of, split_on, split_once, partition, crlf, crlf_to_lf,
}

pub has-append : (c : ℕ) (a b : Text) → has c (a ++ b) ≡ (has c a || has c b)
unfolding has
has-append c [] b = refl
has-append c (x ∷ a) b = ground (arith, has-append c a b)

pub starts_with-append : (q s : Text) → starts_with q (q ++ s) ≡ true
unfolding starts_with
starts_with-append [] s = refl
starts_with-append (c ∷ q) s = ground (arith, starts_with-append q s)

-- A prefix that lacks `c` does not reach past the first `c`.
pub starts_with-stop :
    (c : ℕ) (q a b : Text) → has c q ≡ false → starts_with q (a ++ c ∷ b) ≡ starts_with q a
unfolding starts_with has
starts_with-stop c [] a b h = refl
starts_with-stop c (x ∷ q) [] b h = ground arith
starts_with-stop c (x ∷ q) (y ∷ a) b h = ground (arith, starts_with-stop c q a b)

-- Stripping the right end stops at a character that is kept.
pub rstrip_of-stop :
    (p : ℕ → Bool) (a : Text) (c : ℕ) → p c ≡ false → rstrip_of p (a ++ c ∷ []) ≡ a ++ c ∷ []
unfolding rstrip_of
rstrip_of-stop p [] c h = rw h
rstrip_of-stop p (x ∷ []) c h = rw h
rstrip_of-stop p (x ∷ y ∷ a) c h = rw (rstrip_of-stop p (y ∷ a) c h)

pub rstrip_of-drop :
    (p : ℕ → Bool) (a : Text) (c : ℕ) → p c ≡ true → rstrip_of p (a ++ c ∷ []) ≡ rstrip_of p a
unfolding rstrip_of
rstrip_of-drop p [] c h = rw h
rstrip_of-drop p (x ∷ a) c h = rw (rstrip_of-drop p a c h)

pub rstrip_of-none : (p : ℕ → Bool) (a : Text) → all (λ c. not (p c)) a ≡ true → rstrip_of p a ≡ a
unfolding rstrip_of
rstrip_of-none p [] h = refl
rstrip_of-none p (x ∷ []) h = ground arith
rstrip_of-none p (x ∷ y ∷ a) h = rw (rstrip_of-none p (y ∷ a) (ground arith))

pub split_on-append :
    (sep : ℕ) (a b : Text) → has sep a ≡ false → split_on sep (a ++ sep ∷ b) ≡ a ∷ split_on sep b
unfolding split_on has
split_on-append sep [] b h = ground arith
split_on-append sep (x ∷ a) b h = rw (split_on-append sep a b (ground arith)) (ground arith)

pub split_on-none : (sep : ℕ) (a : Text) → has sep a ≡ false → split_on sep a ≡ a ∷ []
unfolding split_on has
split_on-none sep [] h = refl
split_on-none sep (x ∷ a) h = rw (split_on-none sep a (ground arith)) (ground arith)

pub partition-append :
    (sep : ℕ) (a b : Text) → has sep a ≡ false → partition sep (a ++ sep ∷ b) ≡ (a, b)
unfolding partition has
partition-append sep [] b h = ground arith
partition-append sep (x ∷ a) b h = rw (partition-append sep a b (ground arith)) (ground arith)

-- The separator `CR LF CR LF` is found behind a text without CR.
pub split_once-blank :
    (a b : Text)
    → has 13 a ≡ false
    → split_once (crlf ++ crlf) (a ++ (crlf ++ (crlf ++ b))) ≡ some (a, b)
unfolding split_once has starts_with
split_once-blank [] b h = refl
split_once-blank (x ∷ a) b h = rw (split_once-blank a b (ground arith)) (ground arith)

pub crlf_to_lf-none : (a : Text) → has 13 a ≡ false → crlf_to_lf a ≡ a
unfolding crlf_to_lf has
crlf_to_lf-none [] h = refl
crlf_to_lf-none (x ∷ a) h = rw (crlf_to_lf-none a (ground arith)) (ground arith)

pub crlf_to_lf-append : (a b : Text) → has 13 a ≡ false → crlf_to_lf (a ++ b) ≡ a ++ crlf_to_lf b
unfolding crlf_to_lf has
crlf_to_lf-append [] b h = refl
crlf_to_lf-append (x ∷ a) b h = rw (crlf_to_lf-append a b (ground arith)) (ground arith)

pub truthy-rstrip_of :
    (p : ℕ → Bool) (c : ℕ) (cs : Text) → p c ≡ false → truthy (rstrip_of p (c ∷ cs)) ≡ true
unfolding rstrip_of
truthy-rstrip_of p c cs h = ground arith

pub contains-skip :
    (c : ℕ) (q a b : Text) → has c a ≡ false → contains (c ∷ q) (a ++ b) ≡ contains (c ∷ q) b
unfolding contains has starts_with
contains-skip c q [] b h = refl
contains-skip c q (x ∷ a) b h = rw (contains-skip c q a b (ground arith)) (ground arith)

pub rstrip_of-append :
    (p : ℕ → Bool) (a : Text) (c : ℕ) (v : Text)
    → p c ≡ false
    → rstrip_of p (a ++ c ∷ v) ≡ a ++ c ∷ rstrip_of p v
unfolding rstrip_of
rstrip_of-append p [] c v h = ground arith
rstrip_of-append p (x ∷ []) c v h = rw (rstrip_of-append p [] c v h)
rstrip_of-append p (x ∷ y ∷ a) c v h = rw (rstrip_of-append p (y ∷ a) c v h)

rstrip_of-rstrip_of : (p : ℕ → Bool) (v : Text) → rstrip_of p (rstrip_of p v) ≡ rstrip_of p v
unfolding rstrip_of
rstrip_of-rstrip_of p [] = refl
rstrip_of-rstrip_of p (c ∷ v) = ground (arith, rstrip_of-rstrip_of p v)

pub strip_of-rstrip_of : (p : ℕ → Bool) (v : Text) → strip_of p (rstrip_of p v) ≡ strip_of p v
unfolding strip_of
strip_of-rstrip_of p [] = refl
strip_of-rstrip_of p (c ∷ v) = ground (arith, rstrip_of-rstrip_of p v, strip_of-rstrip_of p v)

-- A text with no blank is left as it is.
pub strip-none : (s : Text) → all (λ c. not (is_space c)) s ≡ true → strip s ≡ s
unfolding strip
strip-none [] h = refl
strip-none (c ∷ s) h = ground (arith, rstrip_of-none is_space (c ∷ s))

digit-not_space : (n : ℕ) → is_space (48 + n % 10) ≡ false
unfolding is_space
digit-not_space n = ground arith

digits_onto-not_space :
    (fuel n : ℕ) (acc : Text)
    → all (λ c. not (is_space c)) acc ≡ true
    → all (λ c. not (is_space c)) (decimal_onto fuel n acc) ≡ true
unfolding decimal_onto
digits_onto-not_space zero n acc h = h
digits_onto-not_space (suc fuel) n acc h =
    let h' = digit-not_space n in
    ground (arith, h', digits_onto-not_space fuel (n / 10) ((48 + n % 10) ∷ acc))

pub strip-decimal : (n : ℕ) → strip (decimal n) ≡ decimal n
strip-decimal n = strip-none (decimal n) (unfold decimal in digits_onto-not_space (suc n) n [] refl)
