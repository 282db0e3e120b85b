-- ===== src/Tests/Texts.antt =====
-- Runs of the codecs and of the rules on texts.
use naesb_edi.Base.{
  ℕ, ◌≤◌, ◌<◌, ◌≡◌, refl, ◌⊎◌, true, false, replicate, some, [], ◌∷◌, ◌++◌, Text, Bytes,
  ascii_python, ok, codes, equal, contains, starts_with, has, length, strip, rstrip_of, partition,
  pos,
}
use naesb_edi.Base.Dict.{lookup}
use naesb_edi.Base.Line.{IsLine}
use naesb_edi.Base.Utf8.{is_scalar}
use naesb_edi.Crypto.Policy.{
  cipher_algo_ids, digest_algo_ids, ids_of, enforce_policy, enforce_digest_policy,
}
use naesb_edi.Crypto.Policy.Laws.{IsAllowed, SignedAllowed, enforce_policy-IsAllowed}
use naesb_edi.Duns.{is_digits, normalize_duns}
use naesb_edi.Duns.Normal.{normalize_duns_lem}
use naesb_edi.ErrorCodes.{gateway, duplicate_digest, sink_failure, value}
use naesb_edi.ErrorCodes.Distinct.{value-injective}
use naesb_edi.Fields.{
  envelope_fields, faults, matches_transaction_set, is_set_char, is_refnum, none_or,
}
use naesb_edi.Fields.Valid.{envelope_fields_lem}
use naesb_edi.Mime.{is_newline}
use naesb_edi.PgpMime.{boundary, wrap_pgp_encrypted, unwrap_pgp_encrypted}
use naesb_edi.PgpMime.RoundTrip.{unwrap-wrap}
use naesb_edi.Receipt.{
  NaesbReceipt, receipt_ok, receipt_rejected, encode_report_part, decode_report_part, is_ok,
  build_signed_mime, parse_signed_mime, signed_boundary,
}
use naesb_edi.Receipt.Rejected.{Reads, decode_ok, decode_rejected}
use naesb_edi.Receipt.RoundTrip.{decode-encode_report_part}
use naesb_edi.Base.{◌>>=◌}
use naesb_edi.Base.Utf8.{encode}
use naesb_edi.Receipt.{report_boundary, fields_text}
use naesb_edi.Receipt.Delivered.{decode-parse_signed_mime}
use naesb_edi.Receipt.Signed.{parse-build_signed_mime}
use naesb_edi.Tests.Fixtures.{ascii_python-IsPython, fields}

abbrev token : Text
token = codes "0123456789abcdef"

unwrap-wrap_example :
    unwrap_pgp_encrypted ascii_python
      (wrap_pgp_encrypted token (codes "\r\n--x")).0
      (wrap_pgp_encrypted token (codes "\r\n--x")).1
    ≡ ok (codes "\r\n--x")
unfolding contains starts_with boundary
unwrap-wrap_example =
    unwrap-wrap ascii_python ascii_python-IsPython token refl (codes "\r\n--x") refl refl

pub time-IsLine : IsLine (codes "20260101000000")
unfolding has is_scalar
time-IsLine = record { unstarred = refl; no_cr = refl; no_lf = refl; scalar = refl }

pub server-IsLine : IsLine (codes "gw")
unfolding has is_scalar
server-IsLine = record { unstarred = refl; no_cr = refl; no_lf = refl; scalar = refl }

abbrev pub receipt : NaesbReceipt
receipt = record {
  time_c = codes "20260101000000";
  request_status = codes "gw";
  server_id = codes "gw";
  trans_id = codes "gw";
}

decode-encode_report_part_example :
    decode_report_part ascii_python
      (encode_report_part token receipt).0
      (encode_report_part token receipt).1
    ≡ ok (record {
      time_c = strip (codes "20260101000000");
      request_status = strip (codes "gw");
      server_id = strip (codes "gw");
      trans_id = strip (codes "gw");
    })
decode-encode_report_part_example =
    decode-encode_report_part ascii_python ascii_python-IsPython token refl receipt (record {
      time_c = time-IsLine;
      request_status = server-IsLine;
      server_id = server-IsLine;
      trans_id = server-IsLine;
    })

abbrev accepted_part : Bytes × Text
accepted_part = encode_report_part token (receipt_ok (codes "gw") 7 (codes "20260101000000"))

decode_ok_example :
    (r : NaesbReceipt) × (decode_report_part ascii_python accepted_part.0 accepted_part.1 ≡ ok r)
    × (is_ok r ≡ true)
    × Reads (codes "gw") (codes "20260101000000") 7 r
decode_ok_example =
    decode_ok ascii_python ascii_python-IsPython token refl (codes "gw") (codes "20260101000000")
      server-IsLine time-IsLine 7

abbrev rejected_part : Bytes × Text
rejected_part = encode_report_part token (
    receipt_rejected (codes "gw") 7 (gateway sink_failure) (some (codes "a*b\r\nok"))
      (codes "20260101000000"))

decode_rejected_example :
    (r : NaesbReceipt) × (decode_report_part ascii_python rejected_part.0 rejected_part.1 ≡ ok r)
    × (is_ok r ≡ false)
    × ((partition b':' r.request_status).0 ≡ value (gateway sink_failure))
    × Reads (codes "gw") (codes "20260101000000") 7 r
unfolding is_scalar
decode_rejected_example =
    decode_rejected ascii_python ascii_python-IsPython token refl (codes "gw")
      (codes "20260101000000") server-IsLine time-IsLine 7 (gateway sink_failure)
      (some (codes "a*b\r\nok")) refl

abbrev signed_mime : Bytes × Text
signed_mime =
    build_signed_mime token (codes "report") (codes "text/plain") (codes "sig\r\n")
      (codes "pgp-sha256")

parse-build_signed_mime_example :
    parse_signed_mime ascii_python signed_mime.0 signed_mime.1
    ≡ ok (codes "report", codes "text/plain", rstrip_of is_newline (codes "sig\r\n"))
unfolding has strip contains starts_with signed_boundary rstrip_of is_newline
parse-build_signed_mime_example =
    parse-build_signed_mime ascii_python ascii_python-IsPython token refl (codes "report")
      (codes "sig\r\n") (codes "text/plain") (codes "pgp-sha256")
      (record { ascii = refl; no_cr = refl; no_lf = refl; trimmed = refl }) refl refl refl refl refl

value-injective_example : gateway duplicate_digest ≡ gateway duplicate_digest
value-injective_example = value-injective (gateway duplicate_digest) (gateway duplicate_digest) refl

normalize_duns_lem_example :
    ((is_digits ascii_python (codes "42") ≡ true)
      × (length (codes "42") < 9)
      × (length (normalize_duns ascii_python (codes "42")) ≡ 9)
      × (is_digits ascii_python (normalize_duns ascii_python (codes "42")) ≡ true)
      × ((k : ℕ) × (normalize_duns ascii_python (codes "42") ≡ replicate k b'0' ++ codes "42")))
    ⊎ (((is_digits ascii_python (codes "42") ≡ false) ⊎ (9 ≤ length (codes "42")))
        × (normalize_duns ascii_python (codes "42") ≡ codes "42"))
normalize_duns_lem_example = normalize_duns_lem ascii_python ascii_python-IsPython (codes "42")

envelope_fields_lem_example :
    (envelope_fields ascii_python fields ≡ ok fields)
    × (none_or matches_transaction_set fields.transaction_set ≡ true)
    × (none_or (is_refnum ascii_python) fields.refnum ≡ true)
    × (none_or (is_refnum ascii_python) fields.refnum_orig ≡ true)
unfolding envelope_fields faults matches_transaction_set is_refnum is_set_char normalize_duns equal
envelope_fields_lem_example =
    envelope_fields_lem ascii_python ascii_python-IsPython fields fields refl

enforce_policy-IsAllowed_example :
    IsAllowed cipher_algo_ids (codes "AES256" ∷ []) (some (pos 9))
    × SignedAllowed true (codes "SHA256" ∷ []) (some (pos 8))
unfolding enforce_policy enforce_digest_policy ids_of cipher_algo_ids digest_algo_ids lookup equal
enforce_policy-IsAllowed_example =
    enforce_policy-IsAllowed (record { cipher_algo = some (pos 9); hash_algo = some (pos 8) })
      (codes "AES256" ∷ []) (codes "SHA256" ∷ []) true refl

abbrev sent : Bytes × Text
sent =
    let (report_body, report_content_type) = encode_report_part token receipt in
    build_signed_mime token report_body report_content_type (codes "sig\r\n") (codes "pgp-sha256")

decode-parse_signed_mime_example :
    (parse_signed_mime ascii_python sent.0 sent.1 >>= λ p. decode_report_part ascii_python p.0 p.1)
    ≡ ok (record {
      time_c = strip (codes "20260101000000");
      request_status = strip (codes "gw");
      server_id = strip (codes "gw");
      trans_id = strip (codes "gw");
    })
unfolding has contains starts_with signed_boundary report_boundary encode_report_part fields_text
    encode rstrip_of is_newline
decode-parse_signed_mime_example =
    decode-parse_signed_mime ascii_python ascii_python-IsPython token token refl refl receipt
      (record {
        time_c = time-IsLine;
        request_status = server-IsLine;
        server_id = server-IsLine;
        trans_id = server-IsLine;
      })
      (codes "sig\r\n") (codes "pgp-sha256") refl refl refl
