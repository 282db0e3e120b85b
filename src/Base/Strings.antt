-- ===== src/Base/Strings.antt =====
-- Python's `str` as the list of its code points and `bytes` as the list of its bytes, with the
-- operations of both that the gateway calls.
use Prim.Native.Nat.{ℕ, zero, suc, ◌+◌, ◌-◌, ◌/◌, ◌%◌}
use Prim.Native.Char.{code}
use Prim.Native.String.{String}
use mathlib.Core.Path.{◌≡◌, refl}
use mathlib.Core.Logic.{◌↔◌}
use mathlib.Core.Bool.{Bool, true, false, ◌&&◌, ◌||◌}
use mathlib.Core.List.{List, [], ◌∷◌, ◌++◌}
use mathlib.Core.Option.{Option, none, some}
use native.Mathlib.Omega.{arith}
use naesb_edi.Base.Bools.{ltb, leb, ◌==◌, if◌then◌else◌}
use naesb_edi.Base.Lists.{length, drop, replicate}

abbrev pub Text : Type 0
Text = List ℕ

abbrev pub Bytes : Type 0
Bytes = List ℕ

-- The code points of a literal.
abbrev pub codes : String → Text
codes String.[] = []
codes (String.◌∷◌ c s) = code c ∷ codes s

-- `a == b` on texts.
unfoldable pub equal : Text → Text → Bool
equal [] [] = true
equal (x ∷ xs) (y ∷ ys) = x == y && equal xs ys
equal _ _ = false

pub equal_iff : (a b : Text) → (equal a b ≡ true) ↔ (a ≡ b)
unfolding equal
equal_iff [] [] = ground arith
equal_iff [] (d ∷ w) = ground arith
equal_iff (c ∷ v) [] = ground arith
equal_iff (c ∷ v) (d ∷ w) = ground (arith, equal_iff v w)

pub equal_refl : (a : Text) → equal a a ≡ true
equal_refl a = (equal_iff a a).1 refl

-- Python's truth of a text: it is not empty.
abbrev pub truthy : Text → Bool
truthy [] = false
truthy (_ ∷ _) = true

-- `s.startswith(prefix)`
unfoldable pub starts_with : Text → Text → Bool
starts_with [] s = true
starts_with (p ∷ ps) [] = false
starts_with (p ∷ ps) (c ∷ cs) = p == c && starts_with ps cs

-- `sub in s`
unfoldable pub contains : Text → Text → Bool
unfolding starts_with
contains sub [] = starts_with sub []
contains sub (c ∷ cs) = starts_with sub (c ∷ cs) || contains sub cs

-- `c in s` for one character.
unfoldable pub has : ℕ → Text → Bool
has c [] = false
has c (x ∷ xs) = x == c || has c xs

-- `s.lstrip`, `s.rstrip` and `s.strip` of the characters that satisfy `p`.
unfoldable pub lstrip_of : (ℕ → Bool) → Text → Text
lstrip_of p [] = []
lstrip_of p (c ∷ cs) = if p c then lstrip_of p cs else c ∷ cs

abbrev keep : (ℕ → Bool) → ℕ → Text → Text
keep p c [] = if p c then [] else c ∷ []
keep p c (d ∷ ds) = c ∷ d ∷ ds

unfoldable pub rstrip_of : (ℕ → Bool) → Text → Text
rstrip_of p [] = []
rstrip_of p (c ∷ cs) = keep p c (rstrip_of p cs)

unfoldable pub strip_of : (ℕ → Bool) → Text → Text
unfolding lstrip_of rstrip_of
strip_of p s = rstrip_of p (lstrip_of p s)

-- `str.isspace` of one character, the set that `strip()` and `split()` go by.
unfoldable pub is_space : ℕ → Bool
is_space c =
    (leb 9 c && leb c 13)
    || (leb 28 c && leb c 32)
    || c == 0x85
    || c == 0xa0
    || c == 0x1680
    || (leb 0x2000 c && leb c 0x200a)
    || c == 0x2028
    || c == 0x2029
    || c == 0x202f
    || c == 0x205f
    || c == 0x3000

-- `s.strip()`
unfoldable pub strip : Text → Text
unfolding strip_of is_space
strip = strip_of is_space

-- The first piece of a split grows at its front.
abbrev pub cons_head : ℕ → List Text → List Text
cons_head c [] = (c ∷ []) ∷ []
cons_head c (p ∷ ps) = (c ∷ p) ∷ ps

-- `s.split(sep)` for a separator of one character.
unfoldable pub split_on : ℕ → Text → List Text
split_on sep [] = [] ∷ []
split_on sep (c ∷ cs) =
    let rest = split_on sep cs in if c == sep then [] ∷ rest else cons_head c rest

-- `s.partition(sep)` for a separator of one character, without its middle part.
unfoldable pub partition : ℕ → Text → Text × Text
partition sep [] = ([], [])
partition sep (c ∷ cs) =
    let rest = partition sep cs in if c == sep then ([], cs) else (c ∷ rest.0, rest.1)

-- `s.split(sep, 1)` for a separator that is not empty; `none` if it does not occur.
unfoldable pub split_once : Text → Text → Option (Text × Text)
unfolding starts_with
split_once sep [] = none
split_once sep (c ∷ cs) =
    if starts_with sep (c ∷ cs)
    then some ([], drop (length sep) (c ∷ cs))
    else elim (split_once sep cs) [ none ↦ none | some (a, b) ↦ some (c ∷ a, b) ]

abbrev next_is_lf : Text → Bool
next_is_lf [] = false
next_is_lf (c ∷ _) = c == 10

-- `s.replace("\r\n", "\n")`
unfoldable pub crlf_to_lf : Text → Text
crlf_to_lf [] = []
crlf_to_lf (c ∷ cs) =
    let rest = crlf_to_lf cs in if c == 13 && next_is_lf cs then rest else c ∷ rest

-- `s.zfill(width)` of a text with no sign, as `isdigit` texts are.
unfoldable pub zfill : ℕ → Text → Text
zfill width s = replicate (width - length s) b'0' ++ s

abbrev pub crlf : Text
crlf = 13 ∷ 10 ∷ []

abbrev digit : ℕ → ℕ
digit n = 48 + n % 10

-- The decimal digits of `n` in front of `acc`, with fuel.
unfoldable pub decimal_onto : ℕ → ℕ → Text → Text
decimal_onto zero n acc = acc
decimal_onto (suc fuel) n acc =
    let rest = decimal_onto fuel (n / 10) (digit n ∷ acc) in
    if ltb n 10 then digit n ∷ acc else rest

-- `str(n)`; the number itself, and one, is fuel enough for its digits.
unfoldable pub decimal : ℕ → Text
unfolding decimal_onto
decimal n = decimal_onto (suc n) n []

decimal-7_205 : decimal 7205 ≡ codes "7205"
unfolding decimal
decimal-7_205 = refl

strip_test : strip (codes " \ta b \n") ≡ codes "a b"
unfolding strip is_space
strip_test = refl

split_test : split_on b'*' (codes "a=1*b*") ≡ codes "a=1" ∷ codes "b" ∷ [] ∷ []
unfolding split_on
split_test = refl
