-- ===== src/Base/Unicode.antt =====
-- What the gateway uses of Python's Unicode tables, which are no part of the repository: an
-- interface of four operations, and the laws that its proofs need of them.
use mathlib.Core.Path.{◌≡◌}
use mathlib.Core.Bool.{Bool, true, ◌&&◌}
use mathlib.Core.List.{map}
use mathlib.Core.Option.{Option, none}
use Prim.Native.Nat.{ℕ, ◌+◌, ◌<◌}
use naesb_edi.Base.Bools.{ltb, leb, if◌then◌else◌}
use naesb_edi.Base.Lists.{all}
use naesb_edi.Base.Strings.{Text}

-- Python's integers; `negsuc n` is -(n + 1).
pub data ℤ : Type 0 where
  pos : ℕ → ℤ
  negsuc : ℕ → ℤ

pub record Python : Type 0 where
  -- `c.isdigit()` of one character
  pub is_digit : ℕ → Bool
  -- `s.lower()`
  pub lower : Text → Text
  -- `repr(s)`, as `{s!r}` prints it
  pub repr : Text → Text
  -- `int(s)`; `none` for its `ValueError`
  pub int_of : Text → Option ℤ

abbrev pub is_ascii : ℕ → Bool
is_ascii c = ltb c 0x80

abbrev pub is_ascii_digit : ℕ → Bool
is_ascii_digit c = leb b'0' c && leb c b'9'

abbrev pub ascii_lower : ℕ → ℕ
ascii_lower c = if leb b'A' c && leb c b'Z' then c + 32 else c

-- Documented behaviour of `isdigit` and `lower` on ASCII.
pub record IsPython (py : Python) : Type 0 where
  pub is_digit-ascii : (c : ℕ) → c < 0x80 → py.is_digit c ≡ is_ascii_digit c
  pub lower-ascii : (s : Text) → all is_ascii s ≡ true → py.lower s ≡ map ascii_lower s

-- A Python that knows ASCII alone, for tests.
abbrev pub ascii_python : Python
ascii_python = record {
  is_digit = is_ascii_digit;
  lower = map ascii_lower;
  repr = λ s. s;
  int_of = λ s. none;
}
