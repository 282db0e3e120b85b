-- ===== src/Crypto/Keyring.antt =====
-- app/crypto/keyring.py: the import of the gateway's and the partners' keys, and the check of every
-- key of the keyring. The keyring itself is python-gnupg's: a type, and the two calls on it.
pub mod Imported
pub mod Strong
use naesb_edi.Base.{
  Bool, true, false, Option, none, some, List, [], ◌∷◌, ◌++◌, Text, Python, ℤ, pos, Result, ok, err,
  ◌>>=◌, map_err, codes, truthy, if◌then◌else◌,
}
use naesb_edi.Base.Dict.{Dict, lookup, insert}
use naesb_edi.Crypto.Policy.{check_key_length, int_lt}
use naesb_edi.Exceptions.{Exception, Weakness, weak_algorithm, value_error}
use naesb_edi.Partners.{PartnerConfig, CryptoOverrides}

-- An entry of `gpg.list_keys`: `get("fingerprint")`, `get("algo", "")` and `get("length") or ""`.
pub record ListedKey : Type 0 where
  pub fingerprint : Option Text
  pub algo : Text
  pub length : Text

-- What the bootstrap calls outside the repository, on a keyring of type `K`.
pub record KeyringEnv (K : Type 0) : Type 0 where
  pub py : Python
  -- `Path(p).read_text()`
  pub read_text : Text → Result Exception Text
  -- `gpg.import_keys(data).fingerprints`, and the keyring afterwards
  pub import_keys : Text → K → List Text × K
  -- `gpg.list_keys(secret)`
  pub list_keys : Bool → K → List ListedKey

-- `KeyringError` with what its three messages print, and any other exception.
pub data KeyringError : Type 0 where
  own_key : Text → KeyringError
  partner_key : Text → Text → KeyringError
  rejected : Option Text → Exception → KeyringError
  other_error : Exception → KeyringError

-- `logger.warning("key_below_recommended_length", ...)`
pub record Warning : Type 0 where
  pub fingerprint : Option Text
  pub length : ℤ
  pub recommended : ℤ

-- `int(key.get("length") or 0)`
abbrev integer : Option ℤ → Result Exception ℤ
integer none = err (value_error [])
integer (some n) = ok n

unfoldable pub key_length : Python → Text → Result Exception ℤ
key_length py text = if truthy text then integer (py.int_of text) else ok (pos 0)

-- `per_key_min_bits.get(fingerprint, min_bits)`
abbrev pub or_else : Option ℤ → ℤ → ℤ
or_else none n = n
or_else (some m) n = m

unfoldable pub effective_min_bits : Dict ℤ → ℤ → Option Text → ℤ
effective_min_bits per_key min_bits none = min_bits
effective_min_bits per_key min_bits (some fingerprint) =
    or_else (lookup fingerprint per_key) min_bits

module _ (py : Python) (per_key : Dict ℤ) (min_bits recommended_bits : ℤ) where
  unfoldable pub check_key : ListedKey → Result KeyringError (List Warning)
  unfolding key_length effective_min_bits check_key_length int_lt
  check_key key = do
    length ← map_err other_error (key_length py key.length)
    _ ←
        map_err (rejected key.fingerprint)
          (check_key_length key.algo length (effective_min_bits per_key min_bits key.fingerprint))
    ok (
        if int_lt length recommended_bits
        then record {
          fingerprint = key.fingerprint;
          length = length;
          recommended = recommended_bits;
        }
          ∷ []
        else [])

  unfoldable pub check_keys : List ListedKey → Result KeyringError (List Warning)
  unfolding check_key
  check_keys [] = ok []
  check_keys (key ∷ keys) = do warned ← check_key key; more ← check_keys keys; ok (warned ++ more)

abbrev overrides_min_bits : Option CryptoOverrides → Option ℤ
overrides_min_bits none = none
overrides_min_bits (some o) = o.min_rsa_key_bits

unfoldable pub own_min_bits : PartnerConfig → Option ℤ
own_min_bits partner = overrides_min_bits partner.crypto_overrides

abbrev pub note_min_bits : Option ℤ → Text → Dict ℤ → Dict ℤ
note_min_bits none fingerprint per_key = per_key
note_min_bits (some m) fingerprint per_key = insert fingerprint m per_key

-- `result.fingerprints[0]`, or the error for an import without any.
abbrev pub first_of : KeyringError → List Text → Result KeyringError Text
first_of e [] = err e
first_of e (f ∷ fs) = ok f

-- The two dicts that the loop over the partners fills, with the keyring.
pub record Imports (K : Type 0) : Type 0 where
  pub keys : K
  pub fingerprints : Dict Text
  pub per_key_min_bits : Dict ℤ

module _ {K : Type 0} (env : KeyringEnv K) where
  -- `gpg.list_keys(secret=True) + gpg.list_keys(secret=False)`
  abbrev pub all_keys : K → List ListedKey
  all_keys keys = env.list_keys true keys ++ env.list_keys false keys

  unfoldable pub validate_key_lengths : Dict ℤ → ℤ → ℤ → K → Result KeyringError (List Warning)
  unfolding check_keys
  validate_key_lengths per_key min_bits recommended_bits keys =
      check_keys env.py per_key min_bits recommended_bits (all_keys keys)

  unfoldable pub import_partner : PartnerConfig → Imports K → Result KeyringError (Imports K)
  unfolding own_min_bits
  import_partner partner i = do
    key_data ← map_err other_error (env.read_text partner.pgp_public_key_path)
    let (found, keys) = env.import_keys key_data i.keys
    fingerprint ← first_of (partner_key partner.name partner.pgp_public_key_path) found
    ok (record {
      keys = keys;
      fingerprints = insert partner.name fingerprint i.fingerprints;
      per_key_min_bits = note_min_bits (own_min_bits partner) fingerprint i.per_key_min_bits;
    })

  unfoldable pub import_partners : List PartnerConfig → Imports K → Result KeyringError (Imports K)
  unfolding import_partner
  import_partners [] i = ok i
  import_partners (p ∷ ps) i = do next ← import_partner p i; import_partners ps next

  -- The fingerprints by name, the keyring that the imports leave and the warnings.
  unfoldable pub bootstrap_keyring :
      Text → List PartnerConfig → ℤ → ℤ → K → Result KeyringError (Dict Text × K × List Warning)
  unfolding import_partners validate_key_lengths
  bootstrap_keyring our_private_key_path partners min_bits recommended_bits keys = do
    key_data ← map_err other_error (env.read_text our_private_key_path)
    let (found, keys) = env.import_keys key_data keys
    own ← first_of (own_key our_private_key_path) found
    i ← import_partners partners (record {
      keys = keys;
      fingerprints = insert (codes "_self") own [];
      per_key_min_bits = [];
    })
    warnings ← validate_key_lengths i.per_key_min_bits min_bits recommended_bits i.keys
    ok (i.fingerprints, i.keys, warnings)
