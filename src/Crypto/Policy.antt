-- ===== src/Crypto/Policy.antt =====
-- app/crypto/policy.py: reading GnuPG's status lines, and the allow-lists.
pub mod Laws
use naesb_edi.Base.{
  ℕ, zero, suc, ◌+◌, ◌≡◌, refl, Bool, true, false, not, ◌&&◌, ◌||◌, Option, none, some, List, [],
  ◌∷◌, ◌++◌, Text, Python, ℤ, pos, negsuc, Result, ok, err, ◌>>=◌, codes, equal, is_space, ◌==◌,
  ltb, leb, any, get_elem?, if◌then◌else◌, cons_head,
}
use naesb_edi.Base.Dict.{Dict, lookup}
use naesb_edi.Exceptions.{
  Exception, Weakness, weak_cipher, weak_digest, not_rsa, short_key, weak_algorithm, key_error,
}

unfoldable pub cipher_algo_ids : Dict ℕ
cipher_algo_ids =
    (codes "IDEA", 1)
    ∷ (codes "3DES", 2)
    ∷ (codes "CAST5", 3)
    ∷ (codes "BLOWFISH", 4)
    ∷ (codes "AES128", 7)
    ∷ (codes "AES192", 8)
    ∷ (codes "AES256", 9)
    ∷ (codes "TWOFISH", 10)
    ∷ []

unfoldable pub digest_algo_ids : Dict ℕ
digest_algo_ids =
    (codes "MD5", 1)
    ∷ (codes "SHA1", 2)
    ∷ (codes "RIPEMD160", 3)
    ∷ (codes "SHA256", 8)
    ∷ (codes "SHA384", 9)
    ∷ (codes "SHA512", 10)
    ∷ (codes "SHA224", 11)
    ∷ []

unfoldable pub is_rsa_pubkey_algo : Text → Bool
is_rsa_pubkey_algo algo =
    equal algo (codes "1") || (equal algo (codes "2") || equal algo (codes "3"))

pub record AlgorithmInfo : Type 0 where
  pub cipher_algo : Option ℤ
  pub hash_algo : Option ℤ

-- `str.splitlines` ends a line at these; CR LF is one end.
abbrev is_line_end : ℕ → Bool
is_line_end c =
    (leb 10 c && leb c 13) || (leb 28 c && leb c 30) || c == 0x85 || c == 0x2028 || c == 0x2029

abbrev starts_lf : Text → Bool
starts_lf [] = false
starts_lf (c ∷ _) = c == 10

-- The lines; the flag says that the last character read was a CR, so that a LF adds no line.
unfoldable pub lines_after : Bool → Text → List Text
lines_after cr [] = []
lines_after cr (c ∷ cs) =
    let ended = [] ∷ lines_after (c == 13) cs in
    let grown = cons_head c (lines_after false cs) in
    let skipped = lines_after false cs in
    if cr && c == 10 then skipped else if is_line_end c then ended else grown

-- `s.splitlines()`
unfoldable pub splitlines : Text → List Text
unfolding lines_after
splitlines = lines_after false

-- The words, and whether the first one goes on from the character before.
unfoldable pub words : Text → List Text × Bool
words [] = ([], false)
words (c ∷ cs) =
    let (ws, joined) = words cs in
    if is_space c
    then (ws, false)
    else if joined
    then (cons_head c ws, true)
    else ((c ∷ []) ∷ ws, true)

-- `s.split()`
unfoldable pub split_words : Text → List Text
unfolding words is_space
split_words s = (words s).0

-- `tokens.index(word)`; `none` if the word is not in the list.
unfoldable pub index_of : Text → List Text → Option ℕ
index_of word [] = none
index_of word (t ∷ ts) =
    if equal t word then some 0 else elim (index_of word ts) [ none ↦ none | some i ↦ some (suc i) ]

abbrev at_offset : ℕ → List Text → Option ℕ → Option Text
at_offset k tokens none = none
at_offset k tokens (some i) = get_elem? tokens (i + k)

-- The token `k` places behind `word`, if the line holds both.
unfoldable pub token_after : Text → ℕ → List Text → Option Text
unfolding index_of
token_after word k tokens = at_offset k tokens (index_of word tokens)

module _ (py : Python) where
  abbrev pub read_id : Option Text → Option ℤ → Option ℤ
  read_id none old = old
  read_id (some token) old = py.int_of token

  unfoldable pub read_line : Text → AlgorithmInfo → AlgorithmInfo
  unfolding split_words token_after
  read_line line info =
      let tokens = split_words line in
      record {
        cipher_algo = read_id (token_after (codes "DECRYPTION_INFO") 2 tokens) info.cipher_algo;
        hash_algo = read_id (token_after (codes "VALIDSIG") 8 tokens) info.hash_algo;
      }

  unfoldable pub read_lines : List Text → AlgorithmInfo → AlgorithmInfo
  unfolding read_line
  read_lines [] info = info
  read_lines (line ∷ lines) info = read_lines lines (read_line line info)

  unfoldable pub parse_status : Text → AlgorithmInfo
  unfolding read_lines splitlines
  parse_status stderr =
      read_lines (splitlines stderr) (record { cipher_algo = none; hash_algo = none })

-- `{KNOWN_IDS[name] for name in names}`
unfoldable pub ids_of : Dict ℕ → List Text → Result Exception (List ℕ)
ids_of known [] = ok []
ids_of known (name ∷ names) = elim (lookup name known) [
  | none ↦ err (key_error name)
  | some id ↦ do ids ← ids_of known names; ok (id ∷ ids)
]

abbrev pub is_id : Option ℤ → ℕ → Bool
is_id (some (pos n)) id = n == id
is_id _ id = false

unfoldable pub enforce_digest_policy : Option ℤ → List Text → Result Exception (Unit {0})
enforce_digest_policy hash_algo allowed_digests = do
  ids ← ids_of digest_algo_ids allowed_digests
  if any (is_id hash_algo) ids
      then ok tt
      else err (weak_algorithm (weak_digest hash_algo allowed_digests))

unfoldable pub enforce_policy :
    AlgorithmInfo → List Text → List Text → Bool → Result Exception (Unit {0})
enforce_policy info allowed_ciphers allowed_digests require_signature = do
  ids ← ids_of cipher_algo_ids allowed_ciphers
  if any (is_id info.cipher_algo) ids
      then (if require_signature
          then enforce_digest_policy info.hash_algo allowed_digests
          else ok tt)
      else err (weak_algorithm (weak_cipher info.cipher_algo allowed_ciphers))

-- `a < b`
unfoldable pub int_lt : ℤ → ℤ → Bool
int_lt (pos a) (pos b) = ltb a b
int_lt (pos a) (negsuc b) = false
int_lt (negsuc a) (pos b) = true
int_lt (negsuc a) (negsuc b) = ltb b a

unfoldable pub check_key_length : Text → ℤ → ℤ → Result Exception (Unit {0})
unfolding is_rsa_pubkey_algo int_lt
check_key_length pubkey_algo length_bits min_bits =
    if not (is_rsa_pubkey_algo pubkey_algo)
    then err (weak_algorithm (not_rsa pubkey_algo))
    else if int_lt length_bits min_bits
    then err (weak_algorithm (short_key length_bits min_bits))
    else ok tt
