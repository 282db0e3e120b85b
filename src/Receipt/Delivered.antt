-- ===== src/Receipt/Delivered.antt =====
-- app/envelope/receipt.py: the receipt that the gateway signs and sends, as a partner reads it.
use naesb_edi.Base.{
  ◌≡◌, refl, ◌∙◌, ap, true, false, ◌++◌, Text, Bytes, Python, IsPython, ok, ◌>>=◌, is_ascii, codes,
  has, all, all-append, arith, truthy, strip, lstrip_of, rstrip_of, is_space,
}
use naesb_edi.Base.StringLaws.{rstrip_of-stop, has-append}
use naesb_edi.Mime.{is_newline}
use naesb_edi.Mime.Header.{IsValue}
use naesb_edi.Mime.Param.{IsToken, has-token, is_ascii-token}
use naesb_edi.Receipt.{
  NaesbReceipt, report_boundary, encode_report_part, decode_report_part, build_signed_mime,
  parse_signed_mime,
}
use naesb_edi.Receipt.RoundTrip.{IsReadable, decode-encode_report_part}
use naesb_edi.Receipt.Apart.{encode_report_part-AvoidsSigned}
use naesb_edi.Receipt.Signed.{AvoidsSigned, parse-build_signed_mime}

module _ (token : Text) (t : IsToken token) where
  abbrev report_type : Text
  report_type =
      codes
        "multipart/report; report-type=\"gisb-acknowledgement-receipt\"; boundary=\"----naesb-report-"
      ++ (token ++ codes "\"")

  report_type-IsValue : IsValue report_type
  unfolding has strip lstrip_of
  report_type-IsValue = record {
    ascii = rw (all-append is_ascii token (codes "\"")) (ground (arith, is_ascii-token token t));
    no_cr = rw (has-append 13 token (codes "\"")) (ground (arith, has-token 13 token refl t));
    no_lf = rw (has-append 10 token (codes "\"")) (ground (arith, has-token 10 token refl t));
    trimmed =
        rstrip_of-stop is_space
          (codes
              "multipart/report; report-type=\"gisb-acknowledgement-receipt\"; boundary=\"----naesb-report-"
            ++ token)
          b'"' refl;
  }

module _ (py : Python) (law : IsPython py) (token signed_token : Text) (t : IsToken token)
    (u : IsToken signed_token) (r : NaesbReceipt) (h : IsReadable r) (signature : Bytes)
    (micalg : Text) where
  abbrev report : Bytes × Text
  report = encode_report_part token r

  abbrev sent : Bytes × Text
  sent = build_signed_mime signed_token report.0 report.1 signature micalg

  pub parse-sent :
      all is_ascii micalg ≡ true
      → has b';' micalg ≡ false
      → AvoidsSigned signed_token (rstrip_of is_newline signature)
      → parse_signed_mime py sent.0 sent.1 ≡ ok (report.0, report.1, rstrip_of is_newline signature)
  parse-sent ascii whole avoids_signature =
      let value : IsValue report.1 =
        unfold encode_report_part report_boundary in report_type-IsValue token t in
      let full : truthy report.1 ≡ true = unfold encode_report_part in refl in
      parse-build_signed_mime py law signed_token u report.0 signature report.1 micalg value full
        ascii whole (encode_report_part-AvoidsSigned token signed_token t r h) avoids_signature

  -- A receipt whose fields stay on their lines, encoded, signed and sent, is what the partner
  -- decodes from the report that it takes out of the signed body, with the blanks around each field
  -- stripped; the tokens are hexadecimal, no line of the signature begins with the signed body's
  -- boundary, and the digest's name is ASCII without a semicolon.
  pub decode-parse_signed_mime :
      all is_ascii micalg ≡ true
      → has b';' micalg ≡ false
      → AvoidsSigned signed_token (rstrip_of is_newline signature)
      → (let (report_body, report_content_type) = encode_report_part token r in
          let (body, content_type) =
            build_signed_mime signed_token report_body report_content_type signature micalg in
          (parse_signed_mime py body content_type >>= λ p. decode_report_part py p.0 p.1)
          ≡ ok (record {
            time_c = strip r.time_c;
            request_status = strip r.request_status;
            server_id = strip r.server_id;
            trans_id = strip r.trans_id;
          }))
  decode-parse_signed_mime ascii whole avoids_signature =
      ap (λ m. m >>= λ p. decode_report_part py p.0 p.1) (parse-sent ascii whole avoids_signature)
      ∙ decode-encode_report_part py law token t r h
