-- ===== src/Receipt/Fields.antt =====
-- Reading the `key=value*` lines back.
use naesb_edi.Base.{
  ◌≡◌, refl, ◌∙◌, ap, true, false, [], ◌∷◌, ◌++◌, Text, codes, crlf, has, strip, lstrip_of,
  rstrip_of, is_space, truthy, split_on, crlf_to_lf, arith, equal, ok,
}
use naesb_edi.Base.Dict.{Dict, lookup, insert}
use naesb_edi.Base.StringLaws.{
  rstrip_of-append, strip_of-rstrip_of, partition-append, split_on-append, crlf_to_lf-append,
}
use naesb_edi.Base.Line.{IsLine}
use naesb_edi.Receipt.{add_chunk, add_chunks, receipt_of, require_value, parse_fields}

strip-rstrip : (v : Text) → strip (rstrip_of is_space v) ≡ strip v
unfolding strip
strip-rstrip v = strip_of-rstrip_of is_space v

-- The text between two stars, behind the line break of the line before.
module _ (v : Text) where
  strip-chunk_first : strip (codes "time-c=" ++ v) ≡ codes "time-c=" ++ rstrip_of is_space v
  unfolding strip lstrip_of
  strip-chunk_first = rstrip_of-append is_space (codes "time-c") b'=' v refl

  strip-chunk_status :
      strip (10 ∷ (codes "request-status=" ++ v)) ≡ codes "request-status=" ++ rstrip_of is_space v
  unfolding strip lstrip_of
  strip-chunk_status = rstrip_of-append is_space (codes "request-status") b'=' v refl

  strip-chunk_server :
      strip (10 ∷ (codes "server-id=" ++ v)) ≡ codes "server-id=" ++ rstrip_of is_space v
  unfolding strip lstrip_of
  strip-chunk_server = rstrip_of-append is_space (codes "server-id") b'=' v refl

  strip-chunk_trans :
      strip (10 ∷ (codes "trans-id=" ++ v)) ≡ codes "trans-id=" ++ rstrip_of is_space v
  unfolding strip lstrip_of
  strip-chunk_trans = rstrip_of-append is_space (codes "trans-id") b'=' v refl

truthy-key : (key v : Text) → truthy (key ++ b'=' ∷ v) ≡ true
truthy-key [] v = refl
truthy-key (c ∷ key) v = refl

has-key : (key v : Text) → has b'=' (key ++ b'=' ∷ v) ≡ true
unfolding has
has-key [] v = refl
has-key (c ∷ key) v = ground (arith, has-key key v)

add_chunk-key :
    (chunk key v : Text) (d : Dict Text)
    → strip chunk ≡ key ++ b'=' ∷ rstrip_of is_space v
    → has b'=' key ≡ false
    → strip key ≡ key
    → add_chunk chunk d ≡ insert key (strip v) d
unfolding add_chunk
add_chunk-key chunk key v d e h k = rw (
  e,
  truthy-key key (rstrip_of is_space v),
  has-key key (rstrip_of is_space v),
  partition-append b'=' key (rstrip_of is_space v) h,
  strip-rstrip v,
  k,
)

-- The four chunks, and the empty one behind the last star.
add_chunks-lines :
    (a b c d : Text)
    → add_chunks
        ((codes "time-c=" ++ a)
          ∷ (10 ∷ (codes "request-status=" ++ b))
          ∷ (10 ∷ (codes "server-id=" ++ c))
          ∷ (10 ∷ (codes "trans-id=" ++ d))
          ∷ []
          ∷ [])
        []
      ≡ (codes "time-c", strip a)
        ∷ (codes "request-status", strip b)
        ∷ (codes "server-id", strip c)
        ∷ (codes "trans-id", strip d)
        ∷ []
unfolding add_chunks
add_chunks-lines a b c d =
    rw
      (add_chunk-key (codes "time-c=" ++ a) (codes "time-c") a [] (strip-chunk_first a)
        (unfold has in refl) (unfold strip in refl))
      (rw
        (add_chunk-key (10 ∷ (codes "request-status=" ++ b)) (codes "request-status") b _
          (strip-chunk_status b) (unfold has in refl) (unfold strip in refl))
        (rw
          (add_chunk-key (10 ∷ (codes "server-id=" ++ c)) (codes "server-id") c _
            (strip-chunk_server c) (unfold has in refl) (unfold strip in refl))
          (rw
            (add_chunk-key (10 ∷ (codes "trans-id=" ++ d)) (codes "trans-id") d _
              (strip-chunk_trans d) (unfold has in refl) (unfold strip in refl))
            (unfold insert equal add_chunk strip in refl))))

-- The text of the four lines with line feeds alone.
abbrev pub lines : Text → Text → Text → Text → Text → Text
lines eol a b c d =
    codes "time-c="
    ++ (a
        ++ (b'*'
            ∷ (eol
                ++ (codes "request-status="
                    ++ (b
                        ++ (b'*'
                            ∷ (eol
                                ++ (codes "server-id="
                                    ++ (c
                                        ++ (b'*'
                                            ∷ (eol
                                                ++ (codes "trans-id="
                                                    ++ (d ++ codes "*")))))))))))))

module _ (a b c d : Text) (ha : IsLine a) (hb : IsLine b) (hc : IsLine c) (hd : IsLine d) where
  split_on-lines :
      split_on b'*' (lines (codes "\n") a b c d)
      ≡ (codes "time-c=" ++ a)
        ∷ (10 ∷ (codes "request-status=" ++ b))
        ∷ (10 ∷ (codes "server-id=" ++ c))
        ∷ (10 ∷ (codes "trans-id=" ++ d))
        ∷ []
        ∷ []
  unfolding has
  split_on-lines =
      split_on-append b'*' (codes "time-c=" ++ a) _ ha.unstarred
      ∙ ap (◌∷◌ (codes "time-c=" ++ a)) (
          split_on-append b'*' (10 ∷ (codes "request-status=" ++ b)) _ hb.unstarred
          ∙ ap (◌∷◌ (10 ∷ (codes "request-status=" ++ b))) (
              split_on-append b'*' (10 ∷ (codes "server-id=" ++ c)) _ hc.unstarred
              ∙ ap (◌∷◌ (10 ∷ (codes "server-id=" ++ c))) (
                  split_on-append b'*' (10 ∷ (codes "trans-id=" ++ d)) [] hd.unstarred
                  ∙ unfold split_on in refl)))

  crlf_to_lf-lines : crlf_to_lf (lines crlf a b c d) ≡ lines (codes "\n") a b c d
  unfolding crlf_to_lf
  crlf_to_lf-lines = rw (crlf_to_lf-append a _ ha.no_cr) (
      rw (crlf_to_lf-append b _ hb.no_cr)
        (rw (crlf_to_lf-append c _ hc.no_cr) (rw (crlf_to_lf-append d _ hd.no_cr))))

  -- Whatever the lines hold, their values are read back without the blanks around them.
  pub parse_fields-lines :
      parse_fields (lines crlf a b c d)
      ≡ ok (record {
        time_c = strip a;
        request_status = strip b;
        server_id = strip c;
        trans_id = strip d;
      })
  unfolding parse_fields receipt_of require_value lookup equal
  parse_fields-lines = rw (crlf_to_lf-lines, split_on-lines, add_chunks-lines a b c d)
