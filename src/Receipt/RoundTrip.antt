-- ===== src/Receipt/RoundTrip.antt =====
-- A partner reads back the receipt that the gateway encoded.
use naesb_edi.Base.{
  ◌≡◌, refl, ◌∙◌, true, false, [], ◌∷◌, ◌++◌, Text, Bytes, codes, crlf, has, all, all-append,
  is_ascii, strip, arith, equal, ok, append_assoc, contains, starts_with, some, Python, IsPython,
}
use naesb_edi.Base.Dict.{lookup}
use naesb_edi.Base.StringLaws.{contains-skip}
use naesb_edi.Base.Utf8.{encode, is_scalar}
use naesb_edi.Base.Utf8.RoundTrip.{decode-encode, encode-append, encode-ascii, has-encode}
use naesb_edi.Mime.{is_quote, content_type_param, parse_part}
use naesb_edi.Mime.Param.{
  IsToken, has-token, is_ascii-token, not_quote-token, IsBoundary, content_type_param-kind,
  search_boundary-skip, search_boundary-last,
}
use naesb_edi.Mime.Parts.{parse_part-content_type, split_mime_parts_two}
use naesb_edi.Mime.Split.{IsClear}
use naesb_edi.Base.Line.{IsLine}
use naesb_edi.Receipt.{
  NaesbReceipt, fields_text, report_boundary, encode_report_part, decode_report_part, find_text,
}
use naesb_edi.Receipt.Fields.{lines, parse_fields-lines}

abbrev text_of : NaesbReceipt → Text
text_of r = lines crlf r.time_c r.request_status r.server_id r.trans_id

pub fields_text-encode : (r : NaesbReceipt) → fields_text r ≡ encode (text_of r) ++ crlf
unfolding fields_text encode
fields_text-encode r = simp (encode-append, append_assoc)

-- All four fields stay on their lines.
pub record IsReadable (r : NaesbReceipt) : Type 0 where
  pub time_c : IsLine r.time_c
  pub request_status : IsLine r.request_status
  pub server_id : IsLine r.server_id
  pub trans_id : IsLine r.trans_id

abbrev pub before_fields : Text
before_fields =
    codes
      "content-type: text/html\r\n\r\n<HTML><HEAD><TITLE>Acknowledgement Receipt</TITLE></HEAD><BODY><P>\r\n"

abbrev pub field_bytes : Bytes → Bytes → Bytes → Bytes → Bytes → Bytes
field_bytes a b c d rest =
    codes "time-c="
    ++ (a
        ++ (codes "*\r\nrequest-status="
            ++ (b
                ++ (codes "*\r\nserver-id="
                    ++ (c ++ (codes "*\r\ntrans-id=" ++ (d ++ (codes "*" ++ rest))))))))

module _ (m a b c d : Bytes) where
  module _ (ha : has 10 a ≡ false) (hb : has 10 b ≡ false) (hc : has 10 c ≡ false)
      (hd : has 10 d ≡ false) where
    IsClear-field_bytes :
        IsClear
          (codes "--" ++ m)
          (crlf ++ (codes "content-type: text/plain\r\n\r\n" ++ field_bytes a b c d []))
    unfolding contains starts_with
    IsClear-field_bytes = rw (contains-skip 10 (codes "--" ++ m) a _ ha) (
        rw (contains-skip 10 (codes "--" ++ m) b _ hb) (
          rw (contains-skip 10 (codes "--" ++ m) c _ hc)
            (rw (contains-skip 10 (codes "--" ++ m) d _ hd))))

    IsClear-field_bytes_html :
        IsClear
          (codes "--" ++ m)
          (crlf ++ (before_fields ++ field_bytes a b c d (codes "\r\n</P></BODY></HTML>")))
    unfolding contains starts_with
    IsClear-field_bytes_html = rw (contains-skip 10 (codes "--" ++ m) a _ ha) (
        rw (contains-skip 10 (codes "--" ++ m) b _ hb) (
          rw (contains-skip 10 (codes "--" ++ m) c _ hc)
            (rw (contains-skip 10 (codes "--" ++ m) d _ hd))))

pub encode-text_of :
    (r : NaesbReceipt)
    → encode (text_of r)
      ≡ field_bytes
          (encode r.time_c)
          (encode r.request_status)
          (encode r.server_id)
          (encode r.trans_id)
          []
unfolding encode
encode-text_of r = simp encode-append

module _ (token : Text) (t : IsToken token) where
  boundary-is_ascii : all is_ascii (report_boundary token) ≡ true
  unfolding report_boundary
  boundary-is_ascii = is_ascii-token token t

  pub encode-boundary : encode (report_boundary token) ≡ report_boundary token
  encode-boundary = encode-ascii (report_boundary token) boundary-is_ascii

  has-boundary : has 13 (codes "--" ++ encode (report_boundary token)) ≡ false
  has-boundary = rw encode-boundary (unfold report_boundary has in has-token 13 token refl t)

  report_boundary-IsBoundary : IsBoundary (report_boundary token)
  unfolding report_boundary has is_quote
  report_boundary-IsBoundary = record {
    whole = has-token b';' token refl t;
    ascii = is_ascii-token token t;
    unquoted = not_quote-token token t;
  }

module _ (py : Python) (law : IsPython py) (token : Text) (t : IsToken token) (r : NaesbReceipt)
    (h : IsReadable r) where
  content_type_param-report :
      content_type_param py (encode_report_part token r).1 (codes "boundary")
      ≡ some (report_boundary token)
  unfolding encode_report_part report_boundary has strip starts_with
  content_type_param-report =
      content_type_param-kind py law (codes "multipart/report") _ refl
      ∙ search_boundary-skip py law (codes " report-type=\"gisb-acknowledgement-receipt\"") _ refl
          refl refl
      ∙ search_boundary-last py law b'-' _ (report_boundary-IsBoundary token t)

  abbrev html_body : Bytes
  html_body =
      codes "<HTML><HEAD><TITLE>Acknowledgement Receipt</TITLE></HEAD><BODY><P>\r\n"
      ++ (encode (text_of r) ++ codes "\r\n</P></BODY></HTML>")

  abbrev html_part : Bytes
  html_part = codes "content-type: text/html\r\n\r\n" ++ html_body

  abbrev text_part : Bytes
  text_part = codes "content-type: text/plain\r\n\r\n" ++ encode (text_of r)

  body-report :
      let m = codes "--" ++ encode (report_boundary token) in
      (encode_report_part token r).0
      ≡ m
        ++ (crlf
            ++ (html_part
                ++ (crlf ++ (m ++ (crlf ++ (text_part ++ (crlf ++ (m ++ (codes "--" ++ crlf)))))))))
  unfolding encode_report_part
  body-report = rw (fields_text-encode r) (simp append_assoc)

  has-field : {v : Text} → IsLine v → has 10 (encode v) ≡ false
  has-field {v} l = has-encode 10 v (omega arith) l.no_lf

  IsClear-html : IsClear (codes "--" ++ encode (report_boundary token)) (crlf ++ html_part)
  IsClear-html = rw (encode-text_of r) (
      simp append_assoc (
        IsClear-field_bytes_html (encode (report_boundary token)) _ _ _ _ (has-field h.time_c)
          (has-field h.request_status) (has-field h.server_id) (has-field h.trans_id)))

  IsClear-text : IsClear (codes "--" ++ encode (report_boundary token)) (crlf ++ text_part)
  IsClear-text = rw (encode-text_of r) (
      IsClear-field_bytes (encode (report_boundary token)) _ _ _ _ (has-field h.time_c)
        (has-field h.request_status) (has-field h.server_id) (has-field h.trans_id))

  part-html :
      parse_part py (crlf ++ html_part)
      ≡ ((codes "content-type", codes "text/html") ∷ [], html_body)
  unfolding has strip
  part-html =
      parse_part-content_type py law (codes "text/html") _
        (record { ascii = refl; no_cr = refl; no_lf = refl; trimmed = refl })

  part-text :
      parse_part py (crlf ++ text_part)
      ≡ ((codes "content-type", codes "text/plain") ∷ [], encode (text_of r))
  unfolding has strip
  part-text =
      parse_part-content_type py law (codes "text/plain") (encode (text_of r))
        (record { ascii = refl; no_cr = refl; no_lf = refl; trimmed = refl })

  scalar-text_of : all is_scalar (text_of r) ≡ true
  unfolding is_scalar
  scalar-text_of =
      simp (
        all-append, h.time_c.scalar, h.request_status.scalar, h.server_id.scalar, h.trans_id.scalar,
      )

  -- A receipt whose fields stay on their lines is read back from its report part, for every
  -- hexadecimal token, with the blanks around each field stripped.
  pub decode-encode_report_part :
      (let (body, content_type) = encode_report_part token r in
        decode_report_part py body content_type
        ≡ ok (record {
          time_c = strip r.time_c;
          request_status = strip r.request_status;
          server_id = strip r.server_id;
          trans_id = strip r.trans_id;
        }))
  unfolding decode_report_part
  decode-encode_report_part =
      rw
        (
          content_type_param-report,
          body-report,
          split_mime_parts_two py (report_boundary token) html_part text_part (has-boundary token t)
              IsClear-html IsClear-text,
          part-html,
          part-text,
        )
        (unfold find_text lookup equal starts_with in
          rw (law.lower-ascii (codes "text/html") refl, law.lower-ascii (codes "text/plain") refl)
            (rw (decode-encode (text_of r) scalar-text_of) (
              parse_fields-lines r.time_c r.request_status r.server_id r.trans_id h.time_c
                h.request_status h.server_id h.trans_id)))
