-- ===== src/Receipt/Signed.antt =====
-- app/envelope/receipt.py: what `build_signed_mime` built, `parse_signed_mime` takes apart.
use naesb_edi.Base.{
  ◌≡◌, refl, ◌∙◌, ap, true, false, [], ◌∷◌, ◌++◌, Text, Bytes, Python, IsPython, is_ascii, codes,
  has, all, all-append, arith, truthy, ok, crlf, contains, some, strip, lstrip_of, rstrip_of,
  is_space, starts_with, equal, append_assoc, map, ascii_lower,
}
use naesb_edi.Base.Dict.{lookup}
use naesb_edi.Base.StringLaws.{rstrip_of-stop, has-append, contains-skip}
use naesb_edi.Base.Utf8.{encode}
use naesb_edi.Base.Utf8.RoundTrip.{encode-ascii}
use naesb_edi.Mime.{is_quote, is_newline, content_type_param, parse_part, split_mime_parts}
use naesb_edi.Mime.Header.{IsValue}
use naesb_edi.Mime.Param.{
  IsToken, has-token, is_ascii-token, not_quote-token, IsBoundary, content_type_param-kind,
  search_boundary-skip, search_boundary-last,
}
use naesb_edi.Mime.Parts.{parse_part-content_type, split_mime_parts_two}
use naesb_edi.Mime.Split.{IsClear}
use naesb_edi.Receipt.{signed_boundary, build_signed_mime, signed_parts, parse_signed_mime}

module _ (token : Text) (t : IsToken token) where
  encode-boundary : encode (signed_boundary token) ≡ signed_boundary token
  encode-boundary =
      encode-ascii (signed_boundary token) (unfold signed_boundary in is_ascii-token token t)

  has-boundary : has 13 (codes "--" ++ encode (signed_boundary token)) ≡ false
  has-boundary = rw encode-boundary (unfold signed_boundary has in has-token 13 token refl t)

  signed_boundary-IsBoundary : IsBoundary (signed_boundary token)
  unfolding signed_boundary has is_quote
  signed_boundary-IsBoundary = record {
    whole = has-token b';' token refl t;
    ascii = is_ascii-token token t;
    unquoted = not_quote-token token t;
  }

-- No line of a part begins with the boundary of the structure around it.
abbrev pub AvoidsSigned : Text → Bytes → Type 0
AvoidsSigned token part = contains (10 ∷ (codes "--" ++ signed_boundary token)) (10 ∷ part) ≡ false

strip-micalg :
    (micalg : Text)
    → strip (codes " micalg=\"" ++ (micalg ++ codes "\""))
      ≡ codes "micalg=\"" ++ (micalg ++ codes "\"")
unfolding strip lstrip_of
strip-micalg micalg = rstrip_of-stop is_space (codes "micalg=\"" ++ micalg) b'"' refl

micalg-whole :
    (micalg : Text)
    → has b';' micalg ≡ false
    → has b';' (codes " micalg=\"" ++ (micalg ++ codes "\"")) ≡ false
unfolding has
micalg-whole micalg h = ground (arith, has-append b';' micalg (codes "\""))

micalg-ascii :
    (micalg : Text)
    → all is_ascii micalg ≡ true
    → all is_ascii (strip (codes " micalg=\"" ++ (micalg ++ codes "\""))) ≡ true
micalg-ascii micalg h =
    rw (strip-micalg micalg) (rw (all-append is_ascii micalg (codes "\"")) (ground arith))

micalg-other :
    (micalg : Text)
    → starts_with
        (codes "boundary=")
        (map ascii_lower (strip (codes " micalg=\"" ++ (micalg ++ codes "\""))))
      ≡ false
unfolding starts_with
micalg-other micalg = rw (strip-micalg micalg) refl

IsClear-line :
    (m ct body : Bytes)
    → has 10 ct ≡ false
    → contains (10 ∷ (codes "--" ++ m)) (10 ∷ body) ≡ false
    → IsClear
        (codes "--" ++ m)
        (crlf ++ (codes "content-type: " ++ (ct ++ (crlf ++ (crlf ++ body)))))
unfolding contains starts_with
IsClear-line m ct body h c = rw (contains-skip 10 (codes "--" ++ m) ct _ h) c

signed_parts-two :
    (py : Python)
    → IsPython py
    → (v body signature : Bytes) → truthy v ≡ true
    → signed_parts py (
        ((codes "content-type", v) ∷ [], body)
        ∷ ((codes "content-type", codes "application/pgp-signature") ∷ [], signature)
        ∷ [])
      ≡ ok (body, v, signature)
unfolding signed_parts lookup equal starts_with
signed_parts-two py law [] body signature full = absurd (ground arith)
signed_parts-two py law (c ∷ cs) body signature full =
    rw (law.lower-ascii (codes "application/pgp-signature") refl) refl

module _ (py : Python) (law : IsPython py) (token : Text) (t : IsToken token)
    (report_body signature : Bytes) (report_content_type micalg : Text) where
  content_type_param-signed :
      all is_ascii micalg ≡ true
      → has b';' micalg ≡ false
      → content_type_param py
          (build_signed_mime token report_body report_content_type signature micalg).1
          (codes "boundary")
        ≡ some (signed_boundary token)
  unfolding build_signed_mime has strip starts_with signed_boundary
  content_type_param-signed ascii whole =
      let after_micalg =
        codes " protocol=\"application/pgp-signature\"; boundary=\""
        ++ (signed_boundary token ++ codes "\"") in
      let piece_whole = micalg-whole micalg whole in
      let piece_ascii = micalg-ascii micalg ascii in
      let piece_other = micalg-other micalg in
      content_type_param-kind py law (codes "multipart/signed") _ refl
      ∙ rw (← append_assoc micalg (codes "\"") (b';' ∷ after_micalg)) (
          search_boundary-skip py law (codes " micalg=\"" ++ (micalg ++ codes "\"")) _ piece_whole
            piece_ascii piece_other)
      ∙ search_boundary-skip py law (codes " protocol=\"application/pgp-signature\"") _ refl refl
          refl
      ∙ search_boundary-last py law b'-' _ (signed_boundary-IsBoundary token t)

  IsClear-report :
      IsValue report_content_type
      → AvoidsSigned token report_body
      → IsClear (codes "--" ++ encode (signed_boundary token)) (
          crlf
          ++ (codes "content-type: " ++ (report_content_type ++ (crlf ++ (crlf ++ report_body)))))
  IsClear-report v h =
      rw (encode-boundary token t)
        (IsClear-line (signed_boundary token) report_content_type report_body v.no_lf h)

  IsClear-signature :
      AvoidsSigned token (rstrip_of is_newline signature)
      → IsClear (codes "--" ++ encode (signed_boundary token)) (
          crlf
          ++ (codes "content-type: application/pgp-signature"
              ++ (crlf ++ (crlf ++ rstrip_of is_newline signature))))
  IsClear-signature h = rw (encode-boundary token t) (unfold contains starts_with in h)

  abbrev report_part : Bytes
  report_part = codes "content-type: " ++ (report_content_type ++ (crlf ++ (crlf ++ report_body)))

  abbrev signature_part : Bytes
  signature_part =
      codes "content-type: application/pgp-signature"
      ++ (crlf ++ (crlf ++ rstrip_of is_newline signature))

  body-signed :
      IsValue report_content_type
      → (let m = codes "--" ++ encode (signed_boundary token) in
          (build_signed_mime token report_body report_content_type signature micalg).0
          ≡ m
            ++ (crlf
                ++ (report_part
                    ++ (crlf
                        ++ (m
                            ++ (crlf
                                ++ (signature_part ++ (crlf ++ (m ++ (codes "--" ++ crlf))))))))))
  unfolding build_signed_mime
  body-signed v = rw (encode-ascii report_content_type v.ascii) (simp append_assoc)

  split-signed :
      IsValue report_content_type
      → AvoidsSigned token report_body
      → AvoidsSigned token (rstrip_of is_newline signature)
      → split_mime_parts py
          (build_signed_mime token report_body report_content_type signature micalg).0
          (signed_boundary token)
        ≡ ok (parse_part py (crlf ++ report_part) ∷ parse_part py (crlf ++ signature_part) ∷ [])
  split-signed v h g =
      ap (λ s. split_mime_parts py s (signed_boundary token)) (body-signed v)
      ∙ split_mime_parts_two py (signed_boundary token) report_part signature_part
          (has-boundary token t) (IsClear-report v h) (IsClear-signature g)

  part-signature :
      parse_part py (
        crlf
        ++ (codes "content-type: application/pgp-signature"
            ++ (crlf ++ (crlf ++ rstrip_of is_newline signature))))
      ≡ (
        (codes "content-type", codes "application/pgp-signature") ∷ [],
        rstrip_of is_newline signature,
      )
  unfolding has strip
  part-signature =
      parse_part-content_type py law (codes "application/pgp-signature")
        (rstrip_of is_newline signature)
        (record { ascii = refl; no_cr = refl; no_lf = refl; trimmed = refl })

  -- For every hexadecimal token, and for a report and a signature no line of which begins with the
  -- boundary, parsing what was built gives the report, its content type and the signature without
  -- the line breaks at its end; the content type is a header's value on one line and not empty, and
  -- the digest's name is ASCII without a semicolon.
  pub parse-build_signed_mime :
      IsValue report_content_type
      → truthy report_content_type ≡ true
      → all is_ascii micalg ≡ true
      → has b';' micalg ≡ false
      → AvoidsSigned token report_body
      → AvoidsSigned token (rstrip_of is_newline signature)
      → (let (body, content_type) =
            build_signed_mime token report_body report_content_type signature micalg in
          parse_signed_mime py body content_type
          ≡ ok (report_body, report_content_type, rstrip_of is_newline signature))
  unfolding parse_signed_mime
  parse-build_signed_mime v full ascii whole avoids avoids_signature =
      rw
        (
          content_type_param-signed ascii whole,
          split-signed v avoids avoids_signature,
          parse_part-content_type py law report_content_type report_body v,
          part-signature,
        )
        (signed_parts-two py law report_content_type report_body (rstrip_of is_newline signature)
          full)
