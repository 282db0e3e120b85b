-- ===== src/Mime/Param.antt =====
-- The boundary parameter of a content type that the gateway wrote.
use naesb_edi.Base.{
  ℕ, ◌+◌, ◌≡◌, refl, Bool, true, false, not, ◌||◌, ◌&&◌, Option, some, List, [], ◌∷◌, ◌++◌, map,
  Text, Python, IsPython, is_ascii, ascii_lower, codes, starts_with, has, length, drop, arith, all,
  all-append, append_assoc, strip, strip_of, lstrip_of, split_on, is_space, if◌then◌else◌, leb,
}
use naesb_edi.Base.StringLaws.{
  rstrip_of-stop, rstrip_of-drop, rstrip_of-none, split_on-append, split_on-none, has-append,
}
use naesb_edi.Mime.{is_quote, find_param, content_type_param}

-- What `secrets.token_hex` returns is made of: the digits 0 to 9 and a to f.
abbrev pub is_hex : ℕ → Bool
is_hex c = (leb b'0' c && leb c b'9') || (leb b'a' c && leb c b'f')

abbrev pub IsToken : Text → Type 0
IsToken token = all is_hex token ≡ true

pub has-token : (c : ℕ) (token : Text) → is_hex c ≡ false → IsToken token → has c token ≡ false
unfolding has
has-token c [] h t = refl
has-token c (x ∷ token) h t = ground (arith, has-token c token h)

pub is_ascii-token : (token : Text) → IsToken token → all is_ascii token ≡ true
is_ascii-token [] t = refl
is_ascii-token (x ∷ token) t = ground (arith, is_ascii-token token)

pub not_quote-token : (token : Text) → IsToken token → all (λ c. not (is_quote c)) token ≡ true
unfolding is_quote
not_quote-token [] t = refl
not_quote-token (x ∷ token) t = ground (arith, not_quote-token token)

-- What `_boundary()` returns: a prefix of the module's own and a random token.
pub record IsBoundary (b : Text) : Type 0 where
  pub whole : has b';' b ≡ false
  pub ascii : all is_ascii b ≡ true
  pub unquoted : all (λ c. not (is_quote c)) b ≡ true

strip-piece :
    (b : Text)
    → strip (codes " boundary=\"" ++ (b ++ codes "\"")) ≡ codes "boundary=\"" ++ (b ++ codes "\"")
unfolding strip lstrip_of
strip-piece b = rstrip_of-stop is_space (codes "boundary=\"" ++ b) b'"' refl

strip-value : (b : Text) → strip (b'"' ∷ (b ++ codes "\"")) ≡ b'"' ∷ (b ++ codes "\"")
unfolding strip lstrip_of
strip-value b = rstrip_of-stop is_space (b'"' ∷ b) b'"' refl

strip_of-quotes :
    (d : ℕ) (b : Text)
    → all (λ c. not (is_quote c)) (d ∷ b) ≡ true
    → strip_of is_quote (b'"' ∷ ((d ∷ b) ++ codes "\"")) ≡ d ∷ b
unfolding strip_of lstrip_of is_quote
strip_of-quotes d b h =
    ground (arith, rstrip_of-drop is_quote (d ∷ b) b'"' refl, rstrip_of-none is_quote (d ∷ b))

module _ (py : Python) (law : IsPython py) where
  -- One round of the search.
  find_param-cons :
      (name p : Text) (ps : List Text)
      → find_param py name (p ∷ ps) ≡ (
          if starts_with (py.lower name ++ codes "=") (py.lower (strip p))
          then some (strip_of is_quote (strip (drop (length name + 1) (strip p))))
          else find_param py name ps)
  unfolding find_param
  find_param-cons name p ps = refl

  lower-piece :
      (b : Text)
      → all is_ascii b ≡ true
      → py.lower (codes "boundary=\"" ++ (b ++ codes "\""))
        ≡ codes "boundary=\"" ++ map ascii_lower (b ++ codes "\"")
  lower-piece b h = law.lower-ascii _ (rw (all-append is_ascii b (codes "\"")) (ground arith))

  -- The piece with the boundary is recognised, and its value is the boundary.
  pub find_param-boundary :
      (d : ℕ) (b : Text) (ps : List Text)
      → all is_ascii (d ∷ b) ≡ true
      → all (λ c. not (is_quote c)) (d ∷ b) ≡ true
      → find_param py (codes "boundary") ((codes " boundary=\"" ++ ((d ∷ b) ++ codes "\"")) ∷ ps)
        ≡ some (d ∷ b)
  unfolding starts_with
  find_param-boundary d b ps ascii unquoted =
      rw (find_param-cons, strip-piece, law.lower-ascii (codes "boundary") refl)
        (rw (lower-piece (d ∷ b) ascii, strip-value, strip_of-quotes d b unquoted))

  -- A piece that does not set the boundary is passed over.
  pub find_param-skip :
      (p : Text) (ps : List Text)
      → all is_ascii (strip p) ≡ true
      → starts_with (codes "boundary=") (map ascii_lower (strip p)) ≡ false
      → find_param py (codes "boundary") (p ∷ ps) ≡ find_param py (codes "boundary") ps
  find_param-skip p ps ascii other =
      rw (find_param-cons, law.lower-ascii (codes "boundary") refl, law.lower-ascii (strip p) ascii)
        (rw other)

  -- The search over the text behind the kind of a content type.
  abbrev search_boundary : Text → Option Text
  search_boundary s = find_param py (codes "boundary") (split_on b';' s)

  pub content_type_param-kind :
      (kind s : Text)
      → has b';' kind ≡ false
      → content_type_param py (kind ++ b';' ∷ s) (codes "boundary") ≡ search_boundary s
  unfolding content_type_param
  content_type_param-kind kind s h = rw (split_on-append b';' kind s h)

  pub search_boundary-skip :
      (p s : Text)
      → has b';' p ≡ false
      → all is_ascii (strip p) ≡ true
      → starts_with (codes "boundary=") (map ascii_lower (strip p)) ≡ false
      → search_boundary (p ++ b';' ∷ s) ≡ search_boundary s
  search_boundary-skip p s h ascii other =
      rw (split_on-append b';' p s h) (find_param-skip p (split_on b';' s) ascii other)

  module _ (d : ℕ) (b : Text) (h : IsBoundary (d ∷ b)) where
    no_semicolon : has b';' (codes " boundary=\"" ++ ((d ∷ b) ++ codes "\"")) ≡ false
    unfolding has
    no_semicolon = ground (arith, h.whole, has-append b';' b (codes "\""))

    pub search_boundary-last :
        search_boundary (codes " boundary=\"" ++ ((d ∷ b) ++ codes "\"")) ≡ some (d ∷ b)
    search_boundary-last =
        rw (split_on-none b';' (codes " boundary=\"" ++ ((d ∷ b) ++ codes "\"")) no_semicolon)
          (find_param-boundary d b [] h.ascii h.unquoted)

    pub search_boundary-next :
        (s : Text)
        → search_boundary (codes " boundary=\"" ++ ((d ∷ b) ++ (b'"' ∷ b';' ∷ s))) ≡ some (d ∷ b)
    search_boundary-next s = rw (← append_assoc b (codes "\"") (b';' ∷ s)) (
        rw (split_on-append b';' (codes " boundary=\"" ++ ((d ∷ b) ++ codes "\"")) s no_semicolon)
          (find_param-boundary d b (split_on b';' s) h.ascii h.unquoted))
