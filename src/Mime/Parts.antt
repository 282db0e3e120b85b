-- ===== src/Mime/Parts.antt =====
-- The parts of a body of two parts and of the final boundary.
use naesb_edi.Base.{
  ◌≡◌, refl, ap, ◌∙◌, false, [], ◌∷◌, ◌++◌, Text, Bytes, Python, IsPython, codes, has, crlf,
  starts_with, contains, ok,
}
use naesb_edi.Base.Dict.{Dict}
use naesb_edi.Base.StringLaws.{split_once-blank}
use naesb_edi.Base.Utf8.{encode}
use naesb_edi.Mime.{
  split_mime_parts, collect_parts, parse_part, parse_headers, header_and_body, drop_line_break,
}
use naesb_edi.Mime.Header.{IsValue, content_type_line, parse_headers-content_type}
use naesb_edi.Mime.Split.{IsClear, split_boundary_two}

IsClear-closing : (b : Bytes) → IsClear (codes "--" ++ b) (codes "--" ++ crlf)
unfolding contains starts_with
IsClear-closing b = refl

module _ (py : Python) where
  pub parse_part-blank :
      (header body : Bytes)
      → has 13 header ≡ false
      → parse_part py (crlf ++ (header ++ (crlf ++ (crlf ++ body))))
        ≡ (parse_headers py header, body)
  unfolding parse_part drop_line_break header_and_body starts_with
  parse_part-blank header body h = rw (split_once-blank header body h) refl

  pub collect_parts_two :
      (a b : Bytes)
      → collect_parts py ((crlf ++ a) ∷ (crlf ++ b) ∷ (codes "--" ++ crlf) ∷ [])
        ≡ parse_part py (crlf ++ a) ∷ parse_part py (crlf ++ b) ∷ []
  unfolding collect_parts starts_with
  collect_parts_two a b = refl

  -- The two parts stand between the boundaries.
  pub split_mime_parts_two :
      (boundary : Text) (a b : Bytes)
      → has 13 (codes "--" ++ encode boundary) ≡ false
      → IsClear (codes "--" ++ encode boundary) (crlf ++ a)
      → IsClear (codes "--" ++ encode boundary) (crlf ++ b)
      → (let m = codes "--" ++ encode boundary in
          split_mime_parts py
            (m
              ++ (crlf
                  ++ (a
                      ++ (crlf ++ (m ++ (crlf ++ (b ++ (crlf ++ (m ++ (codes "--" ++ crlf))))))))))
            boundary)
        ≡ ok (parse_part py (crlf ++ a) ∷ parse_part py (crlf ++ b) ∷ [])
  unfolding split_mime_parts
  split_mime_parts_two boundary a b no_cr ha hb =
      rw
        (split_boundary_two (codes "--" ++ encode boundary) no_cr (crlf ++ a) (crlf ++ b)
          (codes "--" ++ crlf) ha hb (IsClear-closing (encode boundary)))
        (rw (collect_parts_two a b) refl)

  -- A part with one `content-type` header.
  pub parse_part-content_type :
      (law : IsPython py) (v body : Bytes)
      → IsValue v
      → parse_part py (crlf ++ (content_type_line v ++ (crlf ++ (crlf ++ body))))
        ≡ ((codes "content-type", v) ∷ [], body)
  parse_part-content_type law v body h =
      parse_part-blank (content_type_line v) body (unfold has in h.no_cr)
      ∙ ap (λ (d : Dict Text). (d, body)) (parse_headers-content_type py law v h)
