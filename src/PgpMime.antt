-- ===== src/PgpMime.antt =====
-- app/envelope/pgp_mime.py: the `multipart/encrypted` structure inside `input-data`. The token is
-- what `secrets.token_hex(16)` returned.
pub mod RoundTrip
use naesb_edi.Base.{
  ◌≡◌, refl, Bool, not, Option, none, some, List, [], ◌∷◌, ◌++◌, Text, Bytes, Python, Result, ok,
  err, map_err, ◌>>=◌, length, if◌then◌else◌, codes, crlf, starts_with, truthy, decimal,
  ascii_python,
}
use naesb_edi.Base.Dict.{Dict, lookup}
use naesb_edi.Base.Utf8.{encode}
use naesb_edi.Mime.{content_type_param, split_mime_parts}

unfoldable pub boundary : Text → Text
boundary token = codes "----naesb-pgp-" ++ token

unfoldable pub wrap_pgp_encrypted : Text → Bytes → Bytes × Text
unfolding boundary
wrap_pgp_encrypted token ciphertext =
    let marker = codes "--" ++ encode (boundary token) in
    (
      marker
          ++ (crlf
              ++ (codes "content-type: application/pgp-encrypted"
                  ++ (crlf
                      ++ (crlf
                          ++ (codes "Version: 1"
                              ++ (crlf
                                  ++ (marker
                                      ++ (crlf
                                          ++ (codes "content-type: application/octet-stream"
                                              ++ (crlf
                                                  ++ (codes "content-transfer-encoding: binary"
                                                      ++ (crlf
                                                          ++ (crlf
                                                            ++ (ciphertext
                                                            ++ (crlf
                                                            ++ (marker
                                                            ++ (codes "--" ++ crlf))))))))))))))))),
      codes "multipart/encrypted; boundary=\""
          ++ (boundary token ++ codes "\"; protocol=\"application/pgp-encrypted\""),
    )

-- `headers.get(key, "")`
abbrev pub get_or_empty : Option Text → Text
get_or_empty none = []
get_or_empty (some v) = v

module _ (py : Python) where
  -- The checks on the two parts; the error is the message of a `PgpMimeError`.
  unfoldable pub payload_of : List (Dict Text × Bytes) → Result Text Bytes
  payload_of ((control_headers, _) ∷ (_, payload_body) ∷ []) =
      if not (
        starts_with (codes "application/pgp-encrypted")
          (py.lower (get_or_empty (lookup (codes "content-type") control_headers))))
      then err (codes "first multipart/encrypted part must be application/pgp-encrypted")
      else if not (truthy payload_body)
      then err (codes "multipart/encrypted payload part is empty")
      else ok payload_body
  payload_of parts =
      err (codes "expected 2 parts in multipart/encrypted, got " ++ decimal (length parts))

  abbrev payload_at : Bytes → Option Text → Result Text Bytes
  payload_at body none = err (codes "input-data content-type is missing a boundary parameter")
  payload_at body (some b) = do parts ← split_mime_parts py body b; payload_of parts

  unfoldable pub unwrap_pgp_encrypted : Bytes → Text → Result Text Bytes
  unwrap_pgp_encrypted body content_type =
      payload_at body (content_type_param py content_type (codes "boundary"))
