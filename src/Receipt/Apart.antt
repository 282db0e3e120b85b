-- ===== src/Receipt/Apart.antt =====
-- app/envelope/receipt.py: the report keeps clear of the boundary of the signed body around it, since
-- the two boundaries differ in their prefix.
use naesb_edi.Base.{
  ◌≡◌, refl, false, ◌∷◌, ◌++◌, Text, Bytes, codes, has, contains, starts_with, append_assoc, arith,
}
use naesb_edi.Base.StringLaws.{contains-skip}
use naesb_edi.Base.Line.{IsLine}
use naesb_edi.Base.Utf8.{encode}
use naesb_edi.Base.Utf8.RoundTrip.{has-encode}
use naesb_edi.Mime.Param.{IsToken, has-token}
use naesb_edi.Receipt.{NaesbReceipt, report_boundary, signed_boundary, encode_report_part}
use naesb_edi.Receipt.RoundTrip.{
  IsReadable, before_fields, field_bytes, encode-text_of, encode-boundary, fields_text-encode,
}
use naesb_edi.Receipt.Signed.{AvoidsSigned}

abbrev report_of : Bytes → Bytes → Bytes → Bytes → Bytes → Bytes
report_of token a b c d =
    codes "------naesb-report-"
    ++ (token
        ++ (codes "\r\n"
            ++ (before_fields
                ++ field_bytes a b c d (
                    codes "\r\n</P></BODY></HTML>\r\n------naesb-report-"
                    ++ (token
                        ++ (codes "\r\ncontent-type: text/plain\r\n\r\n"
                            ++ field_bytes a b c d
                                (codes "\r\n------naesb-report-" ++ (token ++ codes "--\r\n"))))))))

module _ (signed token a b c d : Bytes) where
  module _ (ht : has 10 token ≡ false) (ha : has 10 a ≡ false) (hb : has 10 b ≡ false)
      (hc : has 10 c ≡ false) (hd : has 10 d ≡ false) where
    abbrev skip :
        (v w : Bytes)
        → has 10 v ≡ false
        → contains (10 ∷ (codes "------naesb-signed-" ++ signed)) (v ++ w)
          ≡ contains (10 ∷ (codes "------naesb-signed-" ++ signed)) w
    skip v w h = contains-skip 10 (codes "------naesb-signed-" ++ signed) v w h

    report_of-avoids :
        contains (10 ∷ (codes "------naesb-signed-" ++ signed)) (10 ∷ report_of token a b c d)
        ≡ false
    unfolding contains starts_with
    report_of-avoids = rw (skip token _ ht) (
        rw (skip a _ ha) (
          rw (skip b _ hb) (
            rw (skip c _ hc) (
              rw (skip d _ hd) (
                rw (skip token _ ht) (
                  rw (skip a _ ha) (
                    rw (skip b _ hb)
                      (rw (skip c _ hc) (rw (skip d _ hd) (rw (skip token _ ht)))))))))))

line_bytes : (v : Text) → IsLine v → has 10 (encode v) ≡ false
line_bytes v l = has-encode 10 v (omega arith) l.no_lf

report_of-lem :
    (token : Text) (t : IsToken token) (r : NaesbReceipt)
    → (encode_report_part token r).0
      ≡ report_of token
          (encode r.time_c)
          (encode r.request_status)
          (encode r.server_id)
          (encode r.trans_id)
unfolding encode_report_part
report_of-lem token t r =
    rw (encode-boundary token t, fields_text-encode r, encode-text_of r)
      (unfold report_boundary in simp append_assoc)

-- No line of a report that the gateway encoded begins with the boundary of the signed body around it,
-- if the receipt's fields stay on their lines and the report's token is hexadecimal, whatever the
-- other token is.
pub encode_report_part-AvoidsSigned :
    (token signed_token : Text) (t : IsToken token) (r : NaesbReceipt) (h : IsReadable r)
    → AvoidsSigned signed_token (encode_report_part token r).0
unfolding signed_boundary has
encode_report_part-AvoidsSigned token signed_token t r h = rw (report_of-lem token t r) (
    report_of-avoids signed_token token (encode r.time_c) (encode r.request_status)
      (encode r.server_id) (encode r.trans_id) (has-token 10 token refl t)
      (line_bytes r.time_c h.time_c) (line_bytes r.request_status h.request_status)
      (line_bytes r.server_id h.server_id) (line_bytes r.trans_id h.trans_id))
