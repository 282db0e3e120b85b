-- ===== src/ErrorCodes/Printable.antt =====
-- Values and descriptions stay on one line of a receipt.
use naesb_edi.Base.{refl, has}
use naesb_edi.Base.Line.{IsLine}
use naesb_edi.Base.Utf8.{is_scalar}
use naesb_edi.ErrorCodes.{
  NaesbErrorCode, GatewayExtensionCode, ErrorCode, naesb, gateway, missing_from, duplicate_digest,
  value, describe, naesb_value, gateway_value, naesb_description, gateway_description,
}

naesb_value-IsLine : (c : NaesbErrorCode) → IsLine (naesb_value c)
unfolding naesb_value has is_scalar
naesb_value-IsLine missing_from = record {
  unstarred = refl;
  no_cr = refl;
  no_lf = refl;
  scalar = refl;
}
naesb_value-IsLine _ = record { unstarred = refl; no_cr = refl; no_lf = refl; scalar = refl }

gateway_value-IsLine : (c : GatewayExtensionCode) → IsLine (gateway_value c)
unfolding gateway_value has is_scalar
gateway_value-IsLine duplicate_digest = record {
  unstarred = refl;
  no_cr = refl;
  no_lf = refl;
  scalar = refl;
}
gateway_value-IsLine _ = record { unstarred = refl; no_cr = refl; no_lf = refl; scalar = refl }

naesb_description-IsLine : (c : NaesbErrorCode) → IsLine (naesb_description c)
unfolding naesb_description has is_scalar
naesb_description-IsLine missing_from = record {
  unstarred = refl;
  no_cr = refl;
  no_lf = refl;
  scalar = refl;
}
naesb_description-IsLine _ = record { unstarred = refl; no_cr = refl; no_lf = refl; scalar = refl }

gateway_description-IsLine : (c : GatewayExtensionCode) → IsLine (gateway_description c)
unfolding gateway_description has is_scalar
gateway_description-IsLine duplicate_digest = record {
  unstarred = refl;
  no_cr = refl;
  no_lf = refl;
  scalar = refl;
}
gateway_description-IsLine _ = record {
  unstarred = refl;
  no_cr = refl;
  no_lf = refl;
  scalar = refl;
}

pub value-IsLine : (c : ErrorCode) → IsLine (value c)
unfolding value
value-IsLine (naesb c) = naesb_value-IsLine c
value-IsLine (gateway c) = gateway_value-IsLine c

pub describe-IsLine : (c : ErrorCode) → IsLine (describe c)
unfolding describe
describe-IsLine (naesb c) = naesb_description-IsLine c
describe-IsLine (gateway c) = gateway_description-IsLine c
