-- ===== src/Base/Utf8.antt =====
-- `str.encode()` and `bytes.decode("utf-8", errors="replace")`.
pub mod RoundTrip
use Prim.Native.Nat.{ℕ, zero, suc, ◌+◌, ◌-◌, ◌*◌, ◌/◌, ◌%◌}
use mathlib.Core.Path.{◌≡◌, refl}
use mathlib.Core.Bool.{Bool, true, false, ◌&&◌, ◌||◌}
use mathlib.Core.List.{List, [], ◌∷◌, ◌++◌}
use native.Mathlib.Omega.{arith}
use naesb_edi.Base.Bools.{ltb, leb, ◌==◌, if◌then◌else◌}
use naesb_edi.Base.Lists.{All}
use naesb_edi.Base.Strings.{Text, Bytes}

pub encode_char : ℕ → Bytes
encode_char c =
    if ltb c 0x80
    then c ∷ []
    else if ltb c 0x800
    then (0xc0 + c / 64) ∷ (0x80 + c % 64) ∷ []
    else if ltb c 0x10000
    then (0xe0 + c / 4096) ∷ (0x80 + c / 64 % 64) ∷ (0x80 + c % 64) ∷ []
    else (0xf0 + c / 262144) ∷ (0x80 + c / 4096 % 64) ∷ (0x80 + c / 64 % 64) ∷ (0x80 + c % 64) ∷ []

unfoldable pub encode : Text → Bytes
unfolding encode_char
encode [] = []
encode (c ∷ cs) = encode_char c ++ encode cs

-- The bits read so far, the number of bytes still wanted less one, and the range of the next.
pub record Pending : Type 0 where
  pub bits : ℕ
  pub more : ℕ
  pub low : ℕ
  pub high : ℕ

pub data State : Type 0 where
  idle : State
  inside : Pending → State

replacement : ℕ
replacement = 0xfffd

-- A byte with no sequence open: what it emits, and the next state.
start : ℕ → Text × State
unfolding replacement
start b =
    if ltb b 0x80
    then (b ∷ [], idle)
    else if leb 0xc2 b && leb b 0xdf
    then ([], inside (record { bits = b - 0xc0; more = 0; low = 0x80; high = 0xbf }))
    else if leb 0xe0 b && leb b 0xef
    then (
      [],
      inside (record {
        bits = b - 0xe0;
        more = 1;
        low = if b == 0xe0 then 0xa0 else 0x80;
        high = if b == 0xed then 0x9f else 0xbf;
      }),
    )
    else if leb 0xf0 b && leb b 0xf4
    then (
      [],
      inside (record {
        bits = b - 0xf0;
        more = 2;
        low = if b == 0xf0 then 0x90 else 0x80;
        high = if b == 0xf4 then 0x8f else 0xbf;
      }),
    )
    else (replacement ∷ [], idle)

accept : ℕ → ℕ → Text × State
accept zero bits = (bits ∷ [], idle)
accept (suc more) bits = ([], inside (record { bits = bits; more = more; low = 0x80; high = 0xbf }))

-- A byte that cannot go on with an open sequence ends it and is read again.
step : State → ℕ → Text × State
unfolding start accept
step idle b = start b
step (inside p) b =
    if leb p.low b && leb b p.high
    then accept p.more (p.bits * 64 + (b - 0x80))
    else (replacement ∷ (start b).0, (start b).1)

pub decode_from : State → Bytes → Text
unfolding step
decode_from idle [] = []
decode_from (inside p) [] = replacement ∷ []
decode_from s (b ∷ bs) = let (out, s') = step s b in out ++ decode_from s' bs

unfoldable pub decode : Bytes → Text
unfolding decode_from
decode = decode_from idle

-- The code points that UTF-8 can carry: all below 0x110000 but the surrogates.
unfoldable pub is_scalar : ℕ → Bool
is_scalar c = ltb c 0xd800 || (leb 0xe000 c && ltb c 0x110000)

decode_tests :
    (decode (0xe2 ∷ 0x82 ∷ 0xac ∷ 65 ∷ []) ≡ 0x20ac ∷ 65 ∷ [])
    × (decode (0xe2 ∷ 65 ∷ 0xff ∷ []) ≡ 0xfffd ∷ 65 ∷ 0xfffd ∷ [])
unfolding decode
decode_tests = (refl, refl)
