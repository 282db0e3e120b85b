-- ===== src/Fields.antt =====
-- app/envelope/fields.py
pub mod Valid
use naesb_edi.Base.{
  ℕ, suc, ◌≡◌, refl, Bool, true, false, not, ◌&&◌, ◌||◌, Option, none, some, List, [], ◌∷◌, ◌++◌,
  Text, Python, Result, ok, err, codes, equal, truthy, all, length, drop, take, ◌==◌, ltb, leb,
  if◌then◌else◌,
}
use naesb_edi.Duns.{is_digits, normalize_duns}

-- The literal names of the envelope's fields.
pub data EnvelopeField : Type 0 where
  from_field : EnvelopeField
  to_field : EnvelopeField
  version_field : EnvelopeField
  receipt_disposition_to_field : EnvelopeField
  receipt_report_type_field : EnvelopeField
  input_format_field : EnvelopeField
  input_data_field : EnvelopeField
  receipt_security_selection_field : EnvelopeField
  transaction_set_field : EnvelopeField
  refnum_field : EnvelopeField
  refnum_orig_field : EnvelopeField

unfoldable pub field_name : EnvelopeField → Text
field_name from_field = codes "from"
field_name to_field = codes "to"
field_name version_field = codes "version"
field_name receipt_disposition_to_field = codes "receipt-disposition-to"
field_name receipt_report_type_field = codes "receipt-report-type"
field_name input_format_field = codes "input-format"
field_name input_data_field = codes "input-data"
field_name receipt_security_selection_field = codes "receipt-security-selection"
field_name transaction_set_field = codes "transaction-set"
field_name refnum_field = codes "refnum"
field_name refnum_orig_field = codes "refnum-orig"

pub data InputFormat : Type 0 where
  x12 : InputFormat

abbrev pub format_value : InputFormat → Text
format_value x12 = codes "X12"

-- `InputFormat(raw)`; `none` for its `ValueError`.
unfoldable pub input_format_of : Text → Option InputFormat
input_format_of raw = if equal raw (codes "X12") then some x12 else none

pub record EnvelopeFields : Type 0 where
  pub from_id : Text
  pub to_id : Text
  pub version : Text
  pub receipt_disposition_to : Text
  pub receipt_report_type : Text
  pub input_format : InputFormat
  pub receipt_security_selection : Text
  pub transaction_set : Option Text
  pub refnum : Option Text
  pub refnum_orig : Option Text

-- `[A-Za-z0-9_-]`
unfoldable pub is_set_char : ℕ → Bool
is_set_char c =
    (leb b'A' c && leb c b'Z')
    || (leb b'a' c && leb c b'z')
    || (leb b'0' c && leb c b'9')
    || c == b'_'
    || c == b'-'

-- `_TRANSACTION_SET_RE.match(value)`: `$` also matches before a line feed that ends the text.
unfoldable pub matches_transaction_set : Text → Bool
unfolding is_set_char
matches_transaction_set v =
    all is_set_char (take 8 v)
    && ((length v == 8) || ((length v == 9) && equal (drop 8 v) (10 ∷ [])))

-- A validator's refusal; pydantic reports all of them in one `ValidationError`.
pub data Fault : Type 0 where
  bad_transaction_set : Fault
  bad_refnum : Fault
  bad_refnum_orig : Fault

abbrev pub none_or : (Text → Bool) → Option Text → Bool
none_or p none = true
none_or p (some v) = p v

module _ (py : Python) where
  unfoldable pub is_refnum : Text → Bool
  is_refnum v = not (ltb 40 (length v) || not (is_digits py v))

  abbrev pub fault_if : Bool → Fault → List Fault
  fault_if true f = []
  fault_if false f = f ∷ []

  unfoldable pub faults : EnvelopeFields → List Fault
  unfolding matches_transaction_set is_refnum
  faults r =
      fault_if (none_or matches_transaction_set r.transaction_set) bad_transaction_set
      ++ (fault_if (none_or is_refnum r.refnum) bad_refnum
          ++ fault_if (none_or is_refnum r.refnum_orig) bad_refnum_orig)

  abbrev pub unless_faults : List Fault → EnvelopeFields → Result (List Fault) EnvelopeFields
  unless_faults [] r = ok r
  unless_faults (f ∷ fs) r = err (f ∷ fs)

  -- The construction of the model from these values, with its validators.
  unfoldable pub envelope_fields : EnvelopeFields → Result (List Fault) EnvelopeFields
  unfolding faults
  envelope_fields r =
      unless_faults (faults r)
        (record r { from_id = normalize_duns py r.from_id; to_id = normalize_duns py r.to_id })
