-- ===== src/Mime/Split.antt =====
-- The splitting of a body that was put together from parts at its boundary.
use naesb_edi.Base.{
  ℕ, suc, ◌≡◌, refl, ap, ◌∙◌, false, none, some, [], ◌∷◌, ◌++◌, Bytes, crlf, starts_with, contains,
  has, length, drop-length_append, arith, cons_head,
}
use naesb_edi.Base.StringLaws.{starts_with-append, starts_with-stop}
use naesb_edi.Mime.{delimiter, split_from, split_boundary}

-- No line but the first of `piece` begins with the marker.
abbrev pub IsClear : Bytes → Bytes → Type 0
IsClear marker piece = contains (10 ∷ marker) piece ≡ false

module _ (marker : Bytes) (no_cr : has 13 marker ≡ false) where
  split_from-length : (a s : Bytes) → split_from marker (length a) (a ++ s) ≡ split_from marker 0 s
  unfolding split_from
  split_from-length [] s = refl
  split_from-length (c ∷ a) s = split_from-length a s

  delimiter-crlf :
      (s : Bytes) → delimiter marker (crlf ++ (marker ++ s)) ≡ some (suc (suc (length marker)))
  unfolding delimiter
  delimiter-crlf s = rw (starts_with-append (crlf ++ marker) s)

  split_from-marker :
      (s : Bytes) → split_from marker 0 (crlf ++ (marker ++ s)) ≡ [] ∷ split_from marker 0 s
  unfolding split_from
  split_from-marker s = rw (delimiter-crlf s, split_from) (ap (◌∷◌ []) (split_from-length marker s))

  starts_with-contains : (q a : Bytes) → contains q a ≡ false → starts_with q a ≡ false
  unfolding contains
  starts_with-contains q [] h = h
  starts_with-contains q (x ∷ a) h = ground arith

  delimiter-clear :
      (c : ℕ) (piece s : Bytes)
      → IsClear marker (c ∷ piece)
      → delimiter marker (c ∷ (piece ++ (13 ∷ s))) ≡ none
  unfolding delimiter contains starts_with has
  delimiter-clear c piece s clear = ground (
    arith,
    starts_with-stop 13 (10 ∷ marker) piece s,
    starts_with-stop 13 marker piece s,
    starts_with-contains (10 ∷ marker) piece,
  )

  delimiter-last :
      (c : ℕ) (piece : Bytes) → IsClear marker (c ∷ piece) → delimiter marker (c ∷ piece) ≡ none
  unfolding delimiter contains starts_with has
  delimiter-last c piece clear = ground (arith, starts_with-contains (10 ∷ marker) piece)

  IsClear-tail : (c : ℕ) (piece : Bytes) → IsClear marker (c ∷ piece) → IsClear marker piece
  unfolding contains
  IsClear-tail c piece clear = ground arith

  pub split_from-piece :
      (piece s : Bytes)
      → IsClear marker piece
      → split_from marker 0 (piece ++ (crlf ++ (marker ++ s))) ≡ piece ∷ split_from marker 0 s
  unfolding split_from
  split_from-piece [] s clear = split_from-marker s
  split_from-piece (c ∷ piece) s clear =
      rw (delimiter-clear c piece (10 ∷ (marker ++ s)) clear, split_from)
        (ap (cons_head c) (split_from-piece piece s (IsClear-tail c piece clear)))

  pub split_from-last :
      (piece : Bytes) → IsClear marker piece → split_from marker 0 piece ≡ piece ∷ []
  unfolding split_from
  split_from-last [] clear = refl
  split_from-last (c ∷ piece) clear =
      rw (delimiter-last c piece clear, split_from)
        (ap (cons_head c) (split_from-last piece (IsClear-tail c piece clear)))

  -- A body of two parts and the closing boundary splits into what stands between the markers.
  pub split_boundary_two :
      (a b c : Bytes)
      → IsClear marker a
      → IsClear marker b
      → IsClear marker c
      → split_boundary marker
          (marker ++ (a ++ (crlf ++ (marker ++ (b ++ (crlf ++ (marker ++ c)))))))
        ≡ [] ∷ a ∷ b ∷ c ∷ []
  unfolding split_boundary
  split_boundary_two a b c ha hb hc =
      rw
        (
          starts_with-append marker (a ++ (crlf ++ (marker ++ (b ++ (crlf ++ (marker ++ c)))))),
          drop-length_append marker (a ++ (crlf ++ (marker ++ (b ++ (crlf ++ (marker ++ c)))))),
        )
        (ap (◌∷◌ []) (
          split_from-piece a _ ha
          ∙ ap (◌∷◌ a) (split_from-piece b _ hb ∙ ap (◌∷◌ b) (split_from-last c hc))))
