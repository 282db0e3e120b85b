-- ===== src/Tests/Forms.antt =====
-- Forms of a sender, as Starlette gives them.
use naesb_edi.Base.{
  ◌≡◌, refl, none, some, [], err, codes, ascii_python, equal, strip, if◌then◌else◌, ◌>>=◌,
}
use naesb_edi.ErrorCodes.{missing}
use naesb_edi.Exceptions.{envelope_error}
use naesb_edi.Fields.{field_name, input_format_of}
use naesb_edi.Multipart.{text, Form, parse_multipart_form, parts_of}
use naesb_edi.Multipart.Carried.{form_of}
use naesb_edi.Multipart.Missing.{refusal, parse_multipart_form-refusal}
use naesb_edi.Tests.Fixtures.{fields}

-- A form with all its text fields and no payload.
unfoldable no_payload : Form
no_payload name =
    if equal name (codes "input-data")
    then none
    else if equal name (codes "input-format")
    then some (text (codes "X12"))
    else some (text (codes "v"))

parse_multipart_form-refusal_example :
    parse_multipart_form ascii_python (λ fs. []) no_payload
    ≡ err (envelope_error (codes "input-data") missing none)
unfolding refusal no_payload equal strip field_name input_format_of
parse_multipart_form-refusal_example =
    parse_multipart_form-refusal ascii_python (λ fs. []) no_payload _ refl

abbrev sent_form : Form
sent_form = form_of (parts_of (codes "ab") fields (codes "cipher") (codes "payload.pgp"))
