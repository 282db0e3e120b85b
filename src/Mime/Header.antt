-- ===== src/Mime/Header.antt =====
-- The headers of a part with one `content-type` line, as the gateway writes them.
use naesb_edi.Base.{
  ◌≡◌, refl, true, false, [], ◌∷◌, ◌++◌, Text, Python, IsPython, is_ascii, codes, has, all, strip,
  lstrip_of, is_space, truthy, partition,
}
use naesb_edi.Base.Dict.{insert}
use naesb_edi.Base.StringLaws.{crlf_to_lf-none, split_on-none, truthy-rstrip_of}
use naesb_edi.Base.Utf8.RoundTrip.{decode-ascii}
use naesb_edi.Mime.{add_header, add_headers, parse_headers}

-- A header's value that is read back as it was written: on one line, with no spaces around it.
pub record IsValue (v : Text) : Type 0 where
  pub ascii : all is_ascii v ≡ true
  pub no_cr : has 13 v ≡ false
  pub no_lf : has 10 v ≡ false
  pub trimmed : strip v ≡ v

abbrev pub content_type_line : Text → Text
content_type_line v = codes "content-type: " ++ v

strip-key : strip (codes "content-type") ≡ codes "content-type"
unfolding strip
strip-key = refl

module _ (py : Python) (law : IsPython py) (v : Text) (h : IsValue v) where
  strip-value : strip (codes " " ++ v) ≡ v
  unfolding strip lstrip_of
  strip-value = h.trimmed

  truthy-line : truthy (strip (content_type_line v)) ≡ true
  unfolding strip lstrip_of
  truthy-line = truthy-rstrip_of is_space b'c' (codes "ontent-type: " ++ v) refl

  add_header-content_type : add_header py (content_type_line v) [] ≡ (codes "content-type", v) ∷ []
  unfolding add_header has partition insert
  add_header-content_type =
      rw truthy-line (rw (strip-value, strip-key, law.lower-ascii (codes "content-type") refl) refl)

  pub parse_headers-content_type :
      parse_headers py (content_type_line v) ≡ (codes "content-type", v) ∷ []
  unfolding parse_headers add_headers has
  parse_headers-content_type =
      rw
        (
          decode-ascii (content_type_line v) h.ascii,
          crlf_to_lf-none (content_type_line v) h.no_cr,
          split_on-none 10 (content_type_line v) h.no_lf,
        )
        add_header-content_type
