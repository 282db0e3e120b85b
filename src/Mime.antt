-- ===== src/Mime.antt =====
-- app/envelope/mime_split.py: the parameters of a content type, and the splitting of a MIME
-- multipart body at its boundary.
pub mod Split
pub mod Param
pub mod Header
pub mod Parts
use naesb_edi.Base.{
  ℕ, zero, suc, ◌+◌, ◌≡◌, refl, Bool, not, ◌||◌, Option, none, some, List, [], ◌∷◌, ◌++◌, Text,
  Bytes, Python, Result, ok, err, length, drop, if◌then◌else◌, ltb, ◌==◌, codes, crlf, starts_with,
  split_on, strip, strip_of, lstrip_of, truthy, has, partition, split_once, crlf_to_lf, cons_head,
  ascii_python,
}
use naesb_edi.Base.Dict.{Dict, insert}
use naesb_edi.Base.Utf8.{encode, decode}

unfoldable pub is_quote : ℕ → Bool
is_quote c = c == b'"'

unfoldable pub is_newline : ℕ → Bool
is_newline c = c == 13 || c == 10

module _ (py : Python) where
  -- The loop of `content_type_param` over the pieces behind the first.
  unfoldable pub find_param : Text → List Text → Option Text
  find_param name [] = none
  find_param name (p ∷ ps) =
      let rest = find_param name ps in
      let piece = strip p in
      if starts_with (py.lower name ++ codes "=") (py.lower piece)
      then some (strip_of is_quote (strip (drop (length name + 1) piece)))
      else rest

  unfoldable pub content_type_param : Text → Text → Option Text
  content_type_param content_type name = find_param name (drop 1 (split_on b';' content_type))

  unfoldable pub add_header : Text → Dict Text → Dict Text
  add_header line headers =
      if not (truthy (strip line)) || not (has b':' line)
      then headers
      else let (key, value) = partition b':' line in
        insert (py.lower (strip key)) (strip value) headers

  unfoldable pub add_headers : List Text → Dict Text → Dict Text
  add_headers [] headers = headers
  add_headers (line ∷ lines) headers = add_headers lines (add_header line headers)

  unfoldable pub parse_headers : Bytes → Dict Text
  parse_headers header_bytes = add_headers (split_on 10 (crlf_to_lf (decode header_bytes))) []

-- The length of a match of `(?:\r\n|\n)--boundary` at the start of `data`.
unfoldable pub delimiter : Bytes → Bytes → Option ℕ
delimiter marker s =
    if starts_with (crlf ++ marker) s
    then some (suc (suc (length marker)))
    else if starts_with (10 ∷ marker) s
    then some (suc (length marker))
    else none

-- `boundary_pattern.split` behind the start of the data; the number counts the bytes of a match
-- that are still to be dropped.
unfoldable pub split_from : Bytes → ℕ → Bytes → List Bytes
split_from marker n [] = [] ∷ []
split_from marker zero (c ∷ cs) = elim (delimiter marker (c ∷ cs)) [
  | some (suc n) ↦ [] ∷ split_from marker n cs
  | _ ↦ cons_head c (split_from marker zero cs)
]
split_from marker (suc n) (c ∷ cs) = split_from marker n cs

-- `boundary_pattern.split(data)`: the alternative `^` matches at the start of the data alone.
unfoldable pub split_boundary : Bytes → Bytes → List Bytes
split_boundary marker s =
    if starts_with marker s
    then [] ∷ split_from marker 0 (drop (length marker) s)
    else split_from marker 0 s

unfoldable pub drop_line_break : Bytes → Bytes
drop_line_break raw = if starts_with crlf raw then drop 2 raw else lstrip_of is_newline raw

abbrev split_blank : Option (Bytes × Bytes) → Option (Bytes × Bytes) → Bytes → Bytes × Bytes
split_blank (some p) _ raw = p
split_blank none (some p) raw = p
split_blank none none raw = ([], raw)

-- The headers and the body of a part, split at its first empty line.
unfoldable pub header_and_body : Bytes → Bytes × Bytes
header_and_body raw =
    split_blank (split_once (crlf ++ crlf) raw) (split_once (10 ∷ 10 ∷ []) raw) raw

module _ (py : Python) where
  unfoldable pub parse_part : Bytes → Dict Text × Bytes
  parse_part raw =
      let (header_bytes, body) = header_and_body (drop_line_break raw) in
      (parse_headers py header_bytes, body)

  -- The loop over the pieces, up to the final boundary.
  unfoldable pub collect_parts : List Bytes → List (Dict Text × Bytes)
  collect_parts [] = []
  collect_parts (raw ∷ raws) =
      let rest = collect_parts raws in
      if starts_with (codes "--") raw then [] else parse_part raw ∷ rest

  abbrev checked_parts : Text → List (Dict Text × Bytes) → Result Text (List (Dict Text × Bytes))
  checked_parts boundary [] = err (codes "no MIME parts found for boundary " ++ py.repr boundary)
  checked_parts boundary (p ∷ ps) = ok (p ∷ ps)

  -- The error is the message of a `MimeSplitError`.
  unfoldable pub split_mime_parts : Bytes → Text → Result Text (List (Dict Text × Bytes))
  split_mime_parts s boundary =
      let raw_parts = split_boundary (codes "--" ++ encode boundary) s in
      if ltb (length raw_parts) 3
      then err (
          codes "boundary "
          ++ (py.repr boundary ++ codes " not found (or found only once) in MIME body"))
      else checked_parts boundary (collect_parts (drop 1 raw_parts))

param_test :
    content_type_param ascii_python (codes "multipart/x; Boundary=\"ab\" ; b=c") (codes "boundary")
    ≡ some (codes "ab")
unfolding content_type_param find_param split_on strip strip_of starts_with is_quote
param_test = refl

split_test :
    split_mime_parts ascii_python
      (codes "--b\r\nA: 1\r\n\r\nx\n--b\n\ny--b\r\n--b--\r\n")
      (codes "b")
    ≡ ok (((codes "a", codes "1") ∷ [], codes "x") ∷ ([], codes "y--b") ∷ [])
unfolding split_mime_parts split_boundary split_from delimiter starts_with encode collect_parts
    parse_part header_and_body split_once drop_line_break lstrip_of is_newline parse_headers decode
    crlf_to_lf split_on add_headers add_header strip has partition insert
split_test = refl
