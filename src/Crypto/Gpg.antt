-- ===== src/Crypto/Gpg.antt =====
-- app/crypto/gpg_wrapper.py. python-gnupg is an interface: what its calls return is not the
-- gateway's.
use naesb_edi.Base.{
  Bool, true, false, ◌&&◌, Option, none, some, [], Text, Bytes, Python, Result, ok, err, truthy,
  equal, if◌then◌else◌,
}
use naesb_edi.Crypto.Policy.{AlgorithmInfo, parse_status}
use naesb_edi.Exceptions.{Exception, gpg_error}

-- The result object of `decrypt` and `verify_data`.
pub record GnupgResult : Type 0 where
  pub ok : Bool
  pub plaintext : Bytes
  pub valid : Bool
  pub fingerprint : Option Text
  pub stderr : Text
  pub status : Option Text

-- The calls of `gnupg.GPG`; each may raise. `encrypt` and `sign` return their `ok` or emptiness
-- and the bytes.
pub record Gnupg : Type 0 where
  pub decrypt : Bytes → Text → Result Exception GnupgResult
  pub verify_data : Bytes → Bytes → Result Exception GnupgResult
  -- data, recipient, signer, passphrase
  pub encrypt : Bytes → Text → Text → Text → Result Exception (Bool × Bytes)
  -- data, key, passphrase
  pub sign : Bytes → Text → Text → Result Exception Bytes

pub record DecryptResult : Type 0 where
  pub ok : Bool
  pub plaintext : Bytes
  pub signature_valid : Bool
  pub signer_fingerprint : Option Text
  pub algo_info : AlgorithmInfo
  pub status_text : Text

pub record VerifyResult : Type 0 where
  pub valid : Bool
  pub plaintext : Bytes
  pub signer_fingerprint : Option Text
  pub algo_info : AlgorithmInfo

abbrev or_empty : Option Text → Text
or_empty none = []
or_empty (some s) = s

-- `a == b` of two values that may be `None`.
abbrev pub same_fingerprint : Option Text → Option Text → Bool
same_fingerprint none none = true
same_fingerprint (some a) (some b) = equal a b
same_fingerprint _ _ = false

abbrev map_ok {ℓ κ} : {A : Type ℓ} {B : Type κ} → (A → B) → Result Exception A → Result Exception B
map_ok f (ok a) = ok (f a)
map_ok f (err e) = err e

module _ (py : Python) (gpg : Gnupg) where
  unfoldable pub decrypt_and_verify : Bytes → Text → Result Exception DecryptResult
  decrypt_and_verify ciphertext passphrase =
      map_ok
        (λ r. record {
          ok = r.ok;
          plaintext = r.plaintext;
          signature_valid = r.valid;
          signer_fingerprint = r.fingerprint;
          algo_info = parse_status py r.stderr;
          status_text = or_empty r.status;
        })
        (gpg.decrypt ciphertext passphrase)

  unfoldable pub verify_detached : Bytes → Bytes → Text → Result Exception VerifyResult
  verify_detached body signature expected_fingerprint =
      map_ok
        (λ r. record {
          valid = r.valid && same_fingerprint r.fingerprint (some expected_fingerprint);
          plaintext = body;
          signer_fingerprint = r.fingerprint;
          algo_info = parse_status py r.stderr;
        })
        (gpg.verify_data signature body)

abbrev encrypted : Result Exception (Bool × Bytes) → Result Exception Bytes
encrypted (ok (done, out)) = if done then ok out else err gpg_error
encrypted (err e) = err e

abbrev signed : Result Exception Bytes → Result Exception Bytes
signed (ok out) = if truthy out then ok out else err gpg_error
signed (err e) = err e

module _ (gpg : Gnupg) where
  unfoldable pub encrypt_and_sign : Bytes → Text → Text → Text → Result Exception Bytes
  encrypt_and_sign payload recipient signer passphrase =
      encrypted (gpg.encrypt payload recipient signer passphrase)

  unfoldable pub detached_sign : Bytes → Text → Text → Result Exception Bytes
  detached_sign body signer passphrase = signed (gpg.sign body signer passphrase)
