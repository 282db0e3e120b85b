-- ===== src/PgpMime/RoundTrip.antt =====
-- What `wrap_pgp_encrypted` built, `unwrap_pgp_encrypted` takes apart.
use naesb_edi.Base.{
  ◌≡◌, refl, ◌∙◌, ap, true, false, [], ◌∷◌, ◌++◌, Text, Bytes, Python, IsPython, is_ascii, codes,
  has, all, arith, truthy, ok, crlf, contains, some, strip, split_once, starts_with, equal,
}
use naesb_edi.Base.Utf8.{encode}
use naesb_edi.Base.Utf8.RoundTrip.{encode-ascii}
use naesb_edi.Mime.{
  is_quote, content_type_param, split_mime_parts, parse_part, drop_line_break, header_and_body,
}
use naesb_edi.Mime.Parts.{parse_part-content_type, split_mime_parts_two}
use naesb_edi.Base.Dict.{Dict, lookup}
use naesb_edi.Mime.Param.{
  IsToken, has-token, is_ascii-token, not_quote-token, IsBoundary, content_type_param-kind,
  search_boundary-next,
}
use naesb_edi.Mime.Split.{IsClear}
use naesb_edi.PgpMime.{boundary, wrap_pgp_encrypted, unwrap_pgp_encrypted, payload_of}

module _ (token : Text) (t : IsToken token) where
  boundary-is_ascii : all is_ascii (boundary token) ≡ true
  unfolding boundary
  boundary-is_ascii = is_ascii-token token t

  encode-boundary : encode (boundary token) ≡ boundary token
  encode-boundary = encode-ascii (boundary token) boundary-is_ascii

  has-boundary : has 13 (codes "--" ++ boundary token) ≡ false
  unfolding boundary has
  has-boundary = has-token 13 token refl t

  boundary-IsBoundary : IsBoundary (boundary token)
  unfolding boundary has is_quote
  boundary-IsBoundary = record {
    whole = has-token b';' token refl t;
    ascii = is_ascii-token token t;
    unquoted = not_quote-token token t;
  }

module _ (py : Python) (law : IsPython py) (token : Text) (t : IsToken token) where
  content_type_param-wrap :
      (ciphertext : Bytes)
      → content_type_param py (wrap_pgp_encrypted token ciphertext).1 (codes "boundary")
        ≡ some (boundary token)
  unfolding wrap_pgp_encrypted boundary has
  content_type_param-wrap ciphertext =
      content_type_param-kind py law (codes "multipart/encrypted") _ refl
      ∙ search_boundary-next py law b'-' _ (boundary-IsBoundary token t) _

abbrev control : Text
control = codes "content-type: application/pgp-encrypted"

abbrev payload_header : Text
payload_header =
    codes "content-type: application/octet-stream"
    ++ (crlf ++ codes "content-transfer-encoding: binary")

module _ (py : Python) (law : IsPython py) where
  part-control :
      parse_part py (crlf ++ (control ++ (crlf ++ (crlf ++ codes "Version: 1"))))
      ≡ ((codes "content-type", codes "application/pgp-encrypted") ∷ [], codes "Version: 1")
  unfolding has strip
  part-control =
      parse_part-content_type py law (codes "application/pgp-encrypted") (codes "Version: 1")
        (record { ascii = refl; no_cr = refl; no_lf = refl; trimmed = refl })

  part-payload :
      (ciphertext : Bytes)
      → (parse_part py (crlf ++ (payload_header ++ (crlf ++ (crlf ++ ciphertext))))).1 ≡ ciphertext
  unfolding parse_part drop_line_break header_and_body split_once starts_with
  part-payload ciphertext = refl

  -- The checks pass on a control part as the gateway writes it and a payload that is not empty.
  payload_of-control :
      (body : Bytes) (p : Dict Text × Bytes)
      → truthy p.1 ≡ true
      → payload_of py
          (((codes "content-type", codes "application/pgp-encrypted") ∷ [], body) ∷ p ∷ [])
        ≡ ok p.1
  unfolding payload_of lookup equal
  payload_of-control body p h =
      rw (law.lower-ascii (codes "application/pgp-encrypted") refl)
        (unfold starts_with in ground arith)

-- No line of a payload begins with the boundary of the structure around it.
abbrev pub AvoidsBoundary : Text → Bytes → Type 0
AvoidsBoundary token ciphertext =
    contains (10 ∷ (codes "--" ++ boundary token)) (10 ∷ ciphertext) ≡ false

module _ (py : Python) (law : IsPython py) (token : Text) (t : IsToken token)
    (ciphertext : Bytes) where
  IsClear-control :
      IsClear
        (codes "--" ++ encode (boundary token))
        (crlf ++ (control ++ (crlf ++ (crlf ++ codes "Version: 1"))))
  unfolding contains starts_with
  IsClear-control = refl

  IsClear-payload :
      AvoidsBoundary token ciphertext
      → IsClear
          (codes "--" ++ encode (boundary token))
          (crlf ++ (payload_header ++ (crlf ++ (crlf ++ ciphertext))))
  IsClear-payload h = rw (encode-boundary token t) (unfold contains starts_with in h)

  split-wrap :
      AvoidsBoundary token ciphertext
      → split_mime_parts py (wrap_pgp_encrypted token ciphertext).0 (boundary token)
        ≡ ok (
            parse_part py (crlf ++ (control ++ (crlf ++ (crlf ++ codes "Version: 1"))))
            ∷ parse_part py (crlf ++ (payload_header ++ (crlf ++ (crlf ++ ciphertext))))
            ∷ [])
  unfolding wrap_pgp_encrypted
  split-wrap h =
      split_mime_parts_two py (boundary token) _ _
        (rw (encode-boundary token t) (has-boundary token t)) IsClear-control (IsClear-payload h)

  -- For every hexadecimal token and every payload that is not empty and no line of which begins
  -- with the boundary, unwrapping what was wrapped, with its content type, gives the payload.
  pub unwrap-wrap :
      truthy ciphertext ≡ true
      → AvoidsBoundary token ciphertext
      → (let (body, content_type) = wrap_pgp_encrypted token ciphertext in
          unwrap_pgp_encrypted py body content_type ≡ ok ciphertext)
  unfolding unwrap_pgp_encrypted
  unwrap-wrap full h =
      rw (content_type_param-wrap py law token t ciphertext, split-wrap h, part-control py law)
        (payload_of-control py law _ _ (rw (part-payload py law ciphertext) full)
          ∙ ap ok (part-payload py law ciphertext))
