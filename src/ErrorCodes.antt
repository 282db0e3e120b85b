-- ===== src/ErrorCodes.antt =====
-- app/envelope/error_codes.py: the codes, their values and descriptions, and the table from an
-- envelope field and its problem to a code.
pub mod Distinct
pub mod Printable
use naesb_edi.Base.{Bool, true, false, List, [], ◌∷◌, Text, codes, equal, ◌&&◌, if◌then◌else◌}

pub data NaesbErrorCode : Type 0 where
  missing_from : NaesbErrorCode
  missing_to : NaesbErrorCode
  missing_input_format : NaesbErrorCode
  missing_input_data : NaesbErrorCode
  missing_transaction_set : NaesbErrorCode
  invalid_from : NaesbErrorCode
  invalid_to : NaesbErrorCode
  invalid_input_format : NaesbErrorCode
  invalid_transaction_set : NaesbErrorCode
  no_parameters_supplied : NaesbErrorCode
  invalid_version : NaesbErrorCode
  missing_version : NaesbErrorCode
  invalid_receipt_security_selection : NaesbErrorCode
  missing_receipt_disposition_to : NaesbErrorCode
  invalid_receipt_disposition_to : NaesbErrorCode
  missing_receipt_report_type : NaesbErrorCode
  invalid_receipt_report_type : NaesbErrorCode
  missing_receipt_security_selection : NaesbErrorCode
  refnum_not_present : NaesbErrorCode
  refnum_orig_not_present : NaesbErrorCode
  duplicate_refnum : NaesbErrorCode
  public_key_invalid : NaesbErrorCode
  file_not_encrypted : NaesbErrorCode
  encrypted_file_truncated : NaesbErrorCode
  signature_not_matched : NaesbErrorCode
  decryption_error : NaesbErrorCode
  sender_not_associated : NaesbErrorCode
  package_format_not_recognized : NaesbErrorCode
  data_set_exchange_not_established : NaesbErrorCode
  system_error : NaesbErrorCode
  transaction_set_not_mutually_agreed : NaesbErrorCode
  missing_receipt_security_selection_warning : NaesbErrorCode
  refnum_received_not_mutually_agreed : NaesbErrorCode
  refnum_orig_received_not_mutually_agreed : NaesbErrorCode

pub data GatewayExtensionCode : Type 0 where
  duplicate_digest : GatewayExtensionCode
  weak_algorithm : GatewayExtensionCode
  sink_failure : GatewayExtensionCode
  unauthenticated : GatewayExtensionCode

-- The union type of the source.
pub data ErrorCode : Type 0 where
  naesb : NaesbErrorCode → ErrorCode
  gateway : GatewayExtensionCode → ErrorCode

unfoldable pub naesb_value : NaesbErrorCode → Text
naesb_value missing_from = codes "EEDM100"
naesb_value missing_to = codes "EEDM101"
naesb_value missing_input_format = codes "EEDM102"
naesb_value missing_input_data = codes "EEDM103"
naesb_value missing_transaction_set = codes "EEDM104"
naesb_value invalid_from = codes "EEDM105"
naesb_value invalid_to = codes "EEDM106"
naesb_value invalid_input_format = codes "EEDM107"
naesb_value invalid_transaction_set = codes "EEDM108"
naesb_value no_parameters_supplied = codes "EEDM109"
naesb_value invalid_version = codes "EEDM110"
naesb_value missing_version = codes "EEDM111"
naesb_value invalid_receipt_security_selection = codes "EEDM113"
naesb_value missing_receipt_disposition_to = codes "EEDM114"
naesb_value invalid_receipt_disposition_to = codes "EEDM115"
naesb_value missing_receipt_report_type = codes "EEDM116"
naesb_value invalid_receipt_report_type = codes "EEDM117"
naesb_value missing_receipt_security_selection = codes "EEDM118"
naesb_value refnum_not_present = codes "EEDM119"
naesb_value refnum_orig_not_present = codes "EEDM120"
naesb_value duplicate_refnum = codes "EEDM121"
naesb_value public_key_invalid = codes "EEDM601"
naesb_value file_not_encrypted = codes "EEDM602"
naesb_value encrypted_file_truncated = codes "EEDM603"
naesb_value signature_not_matched = codes "EEDM604"
naesb_value decryption_error = codes "EEDM699"
naesb_value sender_not_associated = codes "EEDM701"
naesb_value package_format_not_recognized = codes "EEDM702"
naesb_value data_set_exchange_not_established = codes "EEDM703"
naesb_value system_error = codes "EEDM999"
naesb_value transaction_set_not_mutually_agreed = codes "WEDM100"
naesb_value missing_receipt_security_selection_warning = codes "WEDM103"
naesb_value refnum_received_not_mutually_agreed = codes "WEDM104"
naesb_value refnum_orig_received_not_mutually_agreed = codes "WEDM105"

unfoldable pub gateway_value : GatewayExtensionCode → Text
gateway_value duplicate_digest = codes "GWX-DUPLICATE-DIGEST"
gateway_value weak_algorithm = codes "GWX-WEAK-ALGO"
gateway_value sink_failure = codes "GWX-SINK-FAILURE"
gateway_value unauthenticated = codes "GWX-UNAUTHENTICATED"

-- `code.value`
unfoldable pub value : ErrorCode → Text
unfolding naesb_value gateway_value
value (naesb c) = naesb_value c
value (gateway c) = gateway_value c

unfoldable pub naesb_description : NaesbErrorCode → Text
naesb_description missing_from = codes "Missing 'from' Common Code Identifier code"
naesb_description missing_to = codes "Missing 'to' Common Code Identifier"
naesb_description missing_input_format = codes "Missing input format"
naesb_description missing_input_data = codes "Missing data file"
naesb_description missing_transaction_set = codes "Missing transaction set"
naesb_description invalid_from = codes "Invalid 'from' Common Code Identifier"
naesb_description invalid_to = codes "Invalid 'to' Common Code Identifier"
naesb_description invalid_input_format = codes "Invalid input format"
naesb_description invalid_transaction_set = codes "Invalid transaction set"
naesb_description no_parameters_supplied = codes "No parameters supplied"
naesb_description invalid_version = codes "Invalid 'version'"
naesb_description missing_version = codes "Missing 'version'"
naesb_description invalid_receipt_security_selection = codes "Invalid 'receipt-security-selection'"
naesb_description missing_receipt_disposition_to = codes "Missing 'receipt-disposition-to'"
naesb_description invalid_receipt_disposition_to = codes "Invalid 'receipt-disposition-to'"
naesb_description missing_receipt_report_type = codes "Missing 'receipt-report-type'"
naesb_description invalid_receipt_report_type = codes "Invalid 'receipt-report-type'"
naesb_description missing_receipt_security_selection = codes "Missing 'receipt-security-selection'"
naesb_description refnum_not_present = codes "Mutually agreed element, refnum, not present"
naesb_description refnum_orig_not_present = codes "Mutually agreed element refnum-orig not present"
naesb_description duplicate_refnum = codes "Duplicate refnum received"
naesb_description public_key_invalid = codes "Public key invalid"
naesb_description file_not_encrypted = codes "File not encrypted"
naesb_description encrypted_file_truncated = codes "Encrypted file truncated"
naesb_description signature_not_matched = codes "Encrypted file not signed or signature not matched"
naesb_description decryption_error = codes "Decryption Error"
naesb_description sender_not_associated = codes "Sending party not associated with Receiving party"
naesb_description package_format_not_recognized =
    codes "Package file format not recognized by Receiving party"
naesb_description data_set_exchange_not_established =
    codes "Data set exchange not established for Trading Partner"
naesb_description system_error = codes "System error"
naesb_description transaction_set_not_mutually_agreed =
    codes "Transaction set sent not mutually agreed"
naesb_description missing_receipt_security_selection_warning =
    codes "Missing 'receipt-security-selection'"
naesb_description refnum_received_not_mutually_agreed =
    codes "Element refnum received, not mutually agreed; ignored"
naesb_description refnum_orig_received_not_mutually_agreed =
    codes "Refnum-orig received but not mutually agreed; ignored"

unfoldable pub gateway_description : GatewayExtensionCode → Text
gateway_description duplicate_digest =
    codes "Duplicate transmission (content digest already processed)"
gateway_description weak_algorithm = codes "Weak cryptographic algorithm or key length"
gateway_description sink_failure = codes "No durable delivery sink accepted the payload"
gateway_description unauthenticated = codes "Transport-level authentication failed"

unfoldable pub describe : ErrorCode → Text
unfolding naesb_description gateway_description
describe (naesb c) = naesb_description c
describe (gateway c) = gateway_description c

-- The problem of an `EnvelopeError`.
pub data Problem : Type 0 where
  missing : Problem
  invalid : Problem

unfoldable pub problem_text : Problem → Text
problem_text missing = codes "missing"
problem_text invalid = codes "invalid"

-- `FIELD_ERROR_CODES`
unfoldable pub field_error_codes : List (Text × Problem × NaesbErrorCode)
field_error_codes =
    (codes "from", missing, missing_from)
    ∷ (codes "from", invalid, invalid_from)
    ∷ (codes "to", missing, missing_to)
    ∷ (codes "to", invalid, invalid_to)
    ∷ (codes "input-format", missing, missing_input_format)
    ∷ (codes "input-format", invalid, invalid_input_format)
    ∷ (codes "input-data", missing, missing_input_data)
    ∷ (codes "input-data", invalid, file_not_encrypted)
    ∷ (codes "transaction-set", missing, missing_transaction_set)
    ∷ (codes "transaction-set", invalid, invalid_transaction_set)
    ∷ (codes "version", missing, missing_version)
    ∷ (codes "version", invalid, invalid_version)
    ∷ (codes "receipt-disposition-to", missing, missing_receipt_disposition_to)
    ∷ (codes "receipt-disposition-to", invalid, invalid_receipt_disposition_to)
    ∷ (codes "receipt-report-type", missing, missing_receipt_report_type)
    ∷ (codes "receipt-report-type", invalid, invalid_receipt_report_type)
    ∷ (codes "receipt-security-selection", missing, missing_receipt_security_selection)
    ∷ (codes "receipt-security-selection", invalid, invalid_receipt_security_selection)
    ∷ []

abbrev same_problem : Problem → Problem → Bool
same_problem missing missing = true
same_problem invalid invalid = true
same_problem _ _ = false

-- The lookup in the table, with the default of `get`.
unfoldable pub find_code : Text → Problem → List (Text × Problem × NaesbErrorCode) → NaesbErrorCode
find_code field problem [] = no_parameters_supplied
find_code field problem ((f, p, code) ∷ rows) =
    if equal f field && same_problem p problem then code else find_code field problem rows

unfoldable pub error_code_for_field : Text → Problem → NaesbErrorCode
error_code_for_field field problem = find_code field problem field_error_codes
