-- ===== src/Exceptions.antt =====
-- The exceptions that the gateway raises or meets (app/errors.py and the modules that declare
-- them), with what their handlers read of them.
use naesb_edi.Base.{ℕ, Option, none, some, List, [], ◌++◌, Text, codes, ℤ}
use naesb_edi.ErrorCodes.{Problem, problem_text}

-- app/crypto/policy.py: the algorithm or key that `WeakAlgorithmError` was raised for.
pub data Weakness : Type 0 where
  weak_cipher : Option ℤ → List Text → Weakness
  weak_digest : Option ℤ → List Text → Weakness
  not_rsa : Text → Weakness
  short_key : ℤ → ℤ → Weakness

pub data Exception : Type 0 where
  -- fastapi's `HTTPException`
  http : ℕ → Text → Exception
  -- app/envelope/multipart_codec.py: the field, the problem and the detail
  envelope_error : Text → Problem → Option Text → Exception
  weak_algorithm : Weakness → Exception
  -- app/settings.py
  missing_env_var : Text → Exception
  -- app/crypto/gpg_wrapper.py
  gpg_error : Exception
  -- app/outbound/client.py
  delivery_attempt : Text → Exception
  -- psycopg's `UniqueViolation`
  unique_violation : Exception
  key_error : Text → Exception
  value_error : Text → Exception
  -- any other exception of a library, with its text
  other : Text → Exception

abbrev with_detail : Text → Option Text → Text
with_detail message none = message
with_detail message (some []) = message
with_detail message (some d) = message ++ (codes " (" ++ (d ++ codes ")"))

-- `str(EnvelopeError(field, problem, detail))`
unfoldable pub envelope_message : Text → Problem → Option Text → Text
unfolding problem_text
envelope_message field problem detail =
    with_detail (field ++ (codes ": " ++ problem_text problem)) detail
