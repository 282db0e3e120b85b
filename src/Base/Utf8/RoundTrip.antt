-- ===== src/Base/Utf8/RoundTrip.antt =====
-- Decoding reads back what encoding wrote.
use Prim.Native.Nat.{ℕ, suc, ◌+◌, ◌-◌, ◌*◌, ◌/◌, ◌%◌, ◌≤◌, ◌<◌}
use mathlib.Core.Path.{◌≡◌, refl, sym, ◌∙◌, ap}
use mathlib.Core.Bool.{false, true}
use mathlib.Core.Logic.{inl, inr}
use mathlib.Core.List.{append_assoc, [], ◌∷◌, ◌++◌}
use native.Mathlib.Omega.{arith}
use naesb_edi.Base.Bools.{ltb, Bool-cases}
use naesb_edi.Base.Lists.{all}
use naesb_edi.Base.Strings.{Text, Bytes, has}
use naesb_edi.Base.Unicode.{is_ascii}
use naesb_edi.Base.Utf8.{State, idle, inside, encode_char, encode, decode_from, decode, is_scalar}

abbrev open_at : ℕ → ℕ → ℕ → ℕ → State
open_at bits more low high = inside (record { bits = bits; more = more; low = low; high = high })

decode-last :
    (bits low high b : ℕ) (rest : Bytes)
    → low ≤ b
    → b ≤ high
    → decode_from (open_at bits 0 low high) (b ∷ rest)
      ≡ (bits * 64 + (b - 0x80)) ∷ decode_from idle rest
unfolding decode_from
decode-last bits low high b rest h k = ground arith

decode-more :
    (bits more low high b : ℕ) (rest : Bytes)
    → low ≤ b
    → b ≤ high
    → decode_from (open_at bits (suc more) low high) (b ∷ rest)
      ≡ decode_from (open_at (bits * 64 + (b - 0x80)) more 0x80 0xbf) rest
unfolding decode_from
decode-more bits more low high b rest h k = ground arith

decode-one :
    (c : ℕ) (rest : Bytes) → c < 0x80 → decode_from idle (c ∷ rest) ≡ c ∷ decode_from idle rest
unfolding decode_from
decode-one c rest h = ground arith

decode-two :
    (c : ℕ) (rest : Bytes)
    → 0x80 ≤ c
    → c < 0x800
    → decode_from idle ((0xc0 + c / 64) ∷ (0x80 + c % 64) ∷ rest) ≡ c ∷ decode_from idle rest
unfolding decode_from
decode-two c rest h k = ground arith

decode-three :
    (c : ℕ) (rest : Bytes)
    → 0x800 ≤ c
    → c < 0x10000
    → is_scalar c ≡ true
    → decode_from idle ((0xe0 + c / 4096) ∷ (0x80 + c / 64 % 64) ∷ (0x80 + c % 64) ∷ rest)
      ≡ c ∷ decode_from idle rest
unfolding decode_from is_scalar
decode-three c rest h k s = ground arith

decode-four :
    (c : ℕ) (rest : Bytes)
    → 0x10000 ≤ c
    → c < 0x110000
    → decode_from idle (
        (0xf0 + c / 262144)
        ∷ (0x80 + c / 4096 % 64)
        ∷ (0x80 + c / 64 % 64)
        ∷ (0x80 + c % 64)
        ∷ rest)
      ≡ c ∷ decode_from idle rest
unfolding decode_from
decode-four c rest h k = ground arith

decode_from-encode_char :
    (c : ℕ) (rest : Bytes)
    → is_scalar c ≡ true
    → decode_from idle (encode_char c ++ rest) ≡ c ∷ decode_from idle rest
unfolding encode_char
decode_from-encode_char c rest s = elim (Bool-cases (ltb c 0x80)) [
  | inl one ↦ rw one (decode-one c rest (ground arith))
  | inr more ↦ rw more (elim (Bool-cases (ltb c 0x800)) [
    | inl two ↦ rw two (decode-two c rest (ground arith) (ground arith))
    | inr more' ↦ rw more' (elim (Bool-cases (ltb c 0x10000)) [
      | inl three ↦ rw three (decode-three c rest (ground arith) (ground arith) s)
      | inr four ↦ rw four (decode-four c rest (ground arith) (unfold is_scalar in ground arith))
    ])
  ])
]

-- `s.encode().decode("utf-8", errors="replace")` is `s`, where no code point is a surrogate.
pub decode-encode : (s : Text) → all is_scalar s ≡ true → decode (encode s) ≡ s
unfolding decode encode
decode-encode [] h = refl
decode-encode (c ∷ cs) h =
    decode_from-encode_char c (encode cs) (ground arith)
    ∙ ap (◌∷◌ c) (decode-encode cs (ground arith))

pub encode-ascii : (s : Text) → all is_ascii s ≡ true → encode s ≡ s
unfolding encode encode_char
encode-ascii [] h = refl
encode-ascii (c ∷ cs) h = rw (encode-ascii cs (ground arith)) (ground arith)

pub decode-ascii : (s : Bytes) → all is_ascii s ≡ true → decode s ≡ s
unfolding decode
decode-ascii [] h = unfold decode_from in refl
decode-ascii (c ∷ cs) h =
    decode-one c cs (ground arith) ∙ ap (◌∷◌ c) (decode-ascii cs (ground arith))

pub encode-append : (a b : Text) → encode (a ++ b) ≡ encode a ++ encode b
unfolding encode
encode-append [] b = refl
encode-append (c ∷ cs) b =
    rw (encode-append cs b) (sym (append_assoc (encode_char c) (encode cs) (encode b)))

-- Encoding makes no ASCII byte that was not in the text.
pub has-encode : (b : ℕ) (s : Text) → b < 0x80 → has b s ≡ false → has b (encode s) ≡ false
unfolding encode encode_char has
has-encode b [] h k = refl
has-encode b (c ∷ cs) h k = ground (arith, has-encode b cs h)
