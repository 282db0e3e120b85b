-- ===== src/Multipart/Missing.antt =====
-- app/envelope/multipart_codec.py: the forms that are refused before their payload is read.
use naesb_edi.Base.{
  ◌≡◌, refl, sym, ap, ◌∙◌, inl, inr, Option, none, some, List, [], ◌∷◌, Text, Python, Result, ok,
  err, ◌>>=◌, Option-cases, Bool, true, false, Bool-cases, Bytes, is_some, if◌then◌else◌, arith,
}
use naesb_edi.ErrorCodes.{missing, invalid}
use naesb_edi.Exceptions.{Exception, envelope_error}
use naesb_edi.Fields.{
  EnvelopeField, from_field, to_field, version_field, receipt_disposition_to_field,
  receipt_report_type_field, input_format_field, receipt_security_selection_field, field_name,
  Fault, input_data_field, InputFormat, input_format_of,
}
use naesb_edi.Multipart.{
  Form, FormValue, text, upload, get_str, require, format_or_error, read_upload,
  parse_multipart_form,
}

-- The required text fields in the order in which the parser asks for them.
abbrev pub required : List EnvelopeField
required =
    from_field ∷ to_field ∷ version_field ∷ receipt_disposition_to_field ∷ receipt_report_type_field
    ∷ input_format_field ∷ receipt_security_selection_field ∷ []

-- The first of the fields that is no text, or holds blanks only.
unfoldable pub first_missing : Form → List EnvelopeField → Option EnvelopeField
first_missing form [] = none
first_missing form (f ∷ fs) =
    let rest = first_missing form fs in if is_some (get_str form f) then rest else some f

abbrev or_this : EnvelopeField → Option EnvelopeField → EnvelopeField
or_this f none = f
or_this f (some g) = g

abbrev or_err : {A : Type 0} → Exception → Option Exception → Result Exception A
or_err d none = err d
or_err d (some e) = err e

module _ (form : Form) (f : EnvelopeField) where
  require-none :
      get_str form f ≡ none → require form f ≡ err (envelope_error (field_name f) missing none)
  unfolding require
  require-none h = rw h refl

  require-some : (v : Text) → get_str form f ≡ some v → require form f ≡ ok v
  unfolding require
  require-some v h = rw h refl

-- One step of the chain.
module _ {A : Type 0} (form : Form) (f g : EnvelopeField) (fs : List EnvelopeField) where
  step :
      (k : Text → Result Exception A)
      → first_missing form (f ∷ fs) ≡ some g
      → ((v : Text)
          → first_missing form fs ≡ some g
          → k v ≡ err (envelope_error (field_name g) missing none))
      → (require form f >>= k) ≡ err (envelope_error (field_name g) missing none)
  unfolding first_missing
  step k h later = elim (Option-cases (get_str form f)) [
    | inl gone ↦
        let own : some f ≡ some g = sym (rw gone refl) ∙ h in
        rw (require-none form f gone)
          (ap (λ o. err (envelope_error (field_name (or_this f o)) missing none)) own)
    | inr (v, given) ↦
        let rest : first_missing form fs ≡ some g = sym (rw given refl) ∙ h in
        rw (require-some form f v given) (later v rest)
  ]

  -- A field that is there.
  step_over :
      (k : Text → Result Exception A) (e : Exception)
      → first_missing form (f ∷ fs) ≡ none
      → ((v : Text) → get_str form f ≡ some v → first_missing form fs ≡ none → k v ≡ err e)
      → (require form f >>= k) ≡ err e
  unfolding first_missing
  step_over k e h later = elim (Option-cases (get_str form f)) [
    | inl gone ↦ let own : some f ≡ none = sym (rw gone refl) ∙ h in absurd (ground (arith, own))
    | inr (v, given) ↦
        let rest : first_missing form fs ≡ none = sym (rw given refl) ∙ h in
        rw (require-some form f v given) (later v given rest)
  ]

none_missing : (form : Form) (g : EnvelopeField) → first_missing form [] ≡ some g → ⊥
unfolding first_missing
none_missing form g h = ground arith

-- No file was uploaded under the name.
abbrev pub no_upload : Option FormValue → Bool
no_upload (some (upload raw content_type)) = false
no_upload _ = true

abbrev unknown_format : Option Text → Option Exception → Option Exception
unknown_format none later = none
unknown_format (some raw) later =
    if is_some (input_format_of raw)
    then later
    else some (envelope_error (field_name input_format_field) invalid (some raw))

abbrev in_order : Form → Option EnvelopeField → Option Exception
in_order form (some g) = some (envelope_error (field_name g) missing none)
in_order form none = unknown_format (get_str form input_format_field) (
    if no_upload (form (field_name input_data_field))
    then some (envelope_error (field_name input_data_field) missing none)
    else none)

-- Why a form is refused before its payload is read: the first of the text fields that is missing; then
-- an input format that is not known; then a payload that is missing.
unfoldable pub refusal : Form → Option Exception
unfolding first_missing get_str
refusal form = in_order form (first_missing form required)

module _ (py : Python) (print : List Fault → Text) (form : Form) where
  parse-missing :
      (g : EnvelopeField)
      → first_missing form required ≡ some g
      → parse_multipart_form py print form ≡ err (envelope_error (field_name g) missing none)
  unfolding parse_multipart_form
  parse-missing g h = step form from_field g _ _ h λ a h. step form to_field g _ _ h λ b h.
      step form version_field g _ _ h λ c h. step form receipt_disposition_to_field g _ _ h λ d h.
        step form receipt_report_type_field g _ _ h λ e h.
          step form input_format_field g _ _ h λ i h.
            step form receipt_security_selection_field g _ _ h λ s h. absurd (none_missing form g h)

  read_upload-missing :
      (v : Option FormValue)
      → no_upload v ≡ true
      → read_upload py print v ≡ err (envelope_error (field_name input_data_field) missing none)
  read_upload-missing none h = refl
  read_upload-missing (some (text t)) h = refl
  read_upload-missing (some (upload raw content_type)) h = absurd (ground arith)

  -- What follows the required fields, if the format is not known or no file is there.
  after_fields :
      {B : Type 0} (raw : Text) (e : Exception) (k : InputFormat → Bytes → Result Exception B)
      → unknown_format (some raw) (
          if no_upload (form (field_name input_data_field))
          then some (envelope_error (field_name input_data_field) missing none)
          else none)
        ≡ some e
      → (do
        i ← format_or_error raw (input_format_of raw)
        b ← read_upload py print (form (field_name input_data_field))
        k i b)
        ≡ err e
  after_fields raw e k h = elim (Option-cases (input_format_of raw)) [
    | inl unknown ↦
        let own : some (envelope_error (field_name input_format_field) invalid (some raw))
            ≡ some e =
          sym (rw unknown refl) ∙ h in
        rw unknown (ap (or_err e) own)
    | inr (i, known) ↦ elim (Bool-cases (no_upload (form (field_name input_data_field)))) [
      | inl gone ↦
          let own : some (envelope_error (field_name input_data_field) missing none) ≡ some e =
            sym (rw (known, gone) refl) ∙ h in
          rw (known, read_upload-missing (form (field_name input_data_field)) gone)
            (ap (or_err e) own)
      | inr there ↦
          let none_left : none ≡ some e = sym (rw (known, there) refl) ∙ h in
          absurd (ground (arith, none_left))
    ]
  ]

  parse-later :
      (e : Exception)
      → first_missing form required ≡ none
      → in_order form none ≡ some e
      → parse_multipart_form py print form ≡ err e
  unfolding parse_multipart_form
  parse-later e h o = step_over form from_field to_field _ _ e h λ a q h.
      step_over form to_field to_field _ _ e h λ b q h.
        step_over form version_field to_field _ _ e h λ c q h.
          step_over form receipt_disposition_to_field to_field _ _ e h λ d q h.
            step_over form receipt_report_type_field to_field _ _ e h λ r q h.
              step_over form input_format_field to_field _ _ e h λ raw given h.
                step_over form receipt_security_selection_field to_field _ _ e h
                  λ s q h. after_fields raw e _ (sym (rw given refl) ∙ o)

-- A form in which one of the seven required text fields is missing or blank is refused with an
-- `EnvelopeError` that names the first of them, in the order in which the parser asks for them,
-- whatever else is wrong; with all seven there, an unknown input format is refused as invalid with its
-- text; and with a known one a form without an uploaded payload is refused as missing `input-data`.
pub parse_multipart_form-refusal :
    (py : Python) (print : List Fault → Text) (form : Form) (e : Exception)
    → refusal form ≡ some e
    → parse_multipart_form py print form ≡ err e
unfolding refusal
parse_multipart_form-refusal py print form e h = elim (Option-cases (first_missing form required)) [
  | inl all_there ↦ parse-later py print form e all_there (sym (ap (in_order form) all_there) ∙ h)
  | inr (g, gone) ↦
      parse-missing py print form g gone ∙ ap (or_err e) (sym (ap (in_order form) gone) ∙ h)
]
