-- ===== src/ErrorCodes/Distinct.antt =====
-- No two codes have one value.
use naesb_edi.Base.{
  ◌≡◌, refl, sym, ap, ◌∙◌, Option, none, some, List, [], ◌∷◌, Text, equal, if◌then◌else◌,
}
use mathlib.Core.Option.{some-injective}
use naesb_edi.ErrorCodes.{NaesbErrorCode, GatewayExtensionCode, ErrorCode, naesb, gateway, value}
use naesb_edi.ErrorCodes

abbrev all_codes : List ErrorCode
all_codes =
    naesb ErrorCodes.missing_from
    ∷ naesb ErrorCodes.missing_to
    ∷ naesb ErrorCodes.missing_input_format
    ∷ naesb ErrorCodes.missing_input_data
    ∷ naesb ErrorCodes.missing_transaction_set
    ∷ naesb ErrorCodes.invalid_from
    ∷ naesb ErrorCodes.invalid_to
    ∷ naesb ErrorCodes.invalid_input_format
    ∷ naesb ErrorCodes.invalid_transaction_set
    ∷ naesb ErrorCodes.no_parameters_supplied
    ∷ naesb ErrorCodes.invalid_version
    ∷ naesb ErrorCodes.missing_version
    ∷ naesb ErrorCodes.invalid_receipt_security_selection
    ∷ naesb ErrorCodes.missing_receipt_disposition_to
    ∷ naesb ErrorCodes.invalid_receipt_disposition_to
    ∷ naesb ErrorCodes.missing_receipt_report_type
    ∷ naesb ErrorCodes.invalid_receipt_report_type
    ∷ naesb ErrorCodes.missing_receipt_security_selection
    ∷ naesb ErrorCodes.refnum_not_present
    ∷ naesb ErrorCodes.refnum_orig_not_present
    ∷ naesb ErrorCodes.duplicate_refnum
    ∷ naesb ErrorCodes.public_key_invalid
    ∷ naesb ErrorCodes.file_not_encrypted
    ∷ naesb ErrorCodes.encrypted_file_truncated
    ∷ naesb ErrorCodes.signature_not_matched
    ∷ naesb ErrorCodes.decryption_error
    ∷ naesb ErrorCodes.sender_not_associated
    ∷ naesb ErrorCodes.package_format_not_recognized
    ∷ naesb ErrorCodes.data_set_exchange_not_established
    ∷ naesb ErrorCodes.system_error
    ∷ naesb ErrorCodes.transaction_set_not_mutually_agreed
    ∷ naesb ErrorCodes.missing_receipt_security_selection_warning
    ∷ naesb ErrorCodes.refnum_received_not_mutually_agreed
    ∷ naesb ErrorCodes.refnum_orig_received_not_mutually_agreed
    ∷ gateway ErrorCodes.duplicate_digest
    ∷ gateway ErrorCodes.weak_algorithm
    ∷ gateway ErrorCodes.sink_failure
    ∷ gateway ErrorCodes.unauthenticated
    ∷ []

find_value : Text → List ErrorCode → Option ErrorCode
find_value v [] = none
find_value v (c ∷ cs) = if equal (value c) v then some c else find_value v cs

find_value-naesb : (c : NaesbErrorCode) → find_value (value (naesb c)) all_codes ≡ some (naesb c)
unfolding find_value value equal
find_value-naesb ErrorCodes.missing_from = refl
find_value-naesb _ = refl

find_value-gateway :
    (c : GatewayExtensionCode) → find_value (value (gateway c)) all_codes ≡ some (gateway c)
unfolding find_value value equal
find_value-gateway ErrorCodes.duplicate_digest = refl
find_value-gateway _ = refl

find_value-value : (c : ErrorCode) → find_value (value c) all_codes ≡ some c
find_value-value (naesb c) = find_value-naesb c
find_value-value (gateway c) = find_value-gateway c

-- Codes with the same value are the same code, whether of the standard or of the gateway.
pub value-injective : (c d : ErrorCode) → value c ≡ value d → c ≡ d
value-injective c d h =
    some-injective c d
      (sym (find_value-value c) ∙ ap (λ v. find_value v all_codes) h ∙ find_value-value d)
