-- ===== src/Tests/Requests.antt =====
-- Requests to the gateway of the fixtures.
use naesb_edi.Base.{
  ◌≡◌, ◌⊎◌, err, true, false, all, some, Text, refl, [], ◌∷◌, ascii_python, codes, equal, strip,
  partition,
}
use naesb_edi.Base.Dict.{insert, values}
use naesb_edi.Auth.{accepts, find_partner, authenticate_inbound}
use naesb_edi.Auth.Sound.{IsFirstMatch, authenticate_inbound-IsFirstMatch}
use naesb_edi.Inbound.{reject, is_known, check_body, message_record, process_safely}
use naesb_edi.Inbound.Answer.{Ends, IsSettled, process_safely-settles}
use naesb_edi.Inbound.Answered.{Answers, refusal_of, receive-Answers}
use naesb_edi.Inbound.Known.{Reaches-is_known}
use naesb_edi.Inbound.Receive.{parse_form, receive}
use naesb_edi.Gateway.{World, signed_receipt, draw_token}
use naesb_edi.Base.Utf8.{is_scalar}
use naesb_edi.ErrorCodes.{ErrorCode, naesb, missing_from, value}
use naesb_edi.Receipt.{
  unicode_encode_error, encoded_report, can_encode, receipt_rejected, description_or_default,
  sanitize_receipt_text,
}
use naesb_edi.Partners.{PartnerRegistry, registry, partners_of, index_by}
use naesb_edi.Settings.{resolve_env}
use naesb_edi.Tracking.{update_status, to_status, rejected, create, conflicts, find_row}
use naesb_edi.Tracking.Unique.{IsSound, Reaches-IsSound, here, next, insert_row, set_status}
use naesb_edi.Tests.Fixtures.{
  outside, app, app-CanSign, partner, fields, no_messages, world, context, request,
}

abbrev partners : PartnerRegistry
partners = registry (partner ∷ [])

no_messages-IsSound : IsSound no_messages
no_messages-IsSound = record { unique = tt; ids_below = tt }

receive-Answers_example :
    Answers app app-CanSign 1 (receive app partners (λ m. m) request) world
    ⊎ ((code : ErrorCode) × (message : Text) × (w' : World) × (refusal_of app partner
            (parse_form app request.form)
          ≡ some (code, some message))
        × (all is_scalar message ≡ false)
        × (receive app partners (λ m. m) request world ≡ (err unicode_encode_error, w'))
        × (w'.messages ≡ record no_messages { next_trans = 2 }))
unfolding check_body authenticate_inbound find_partner accepts resolve_env partners_of registry
    index_by insert values equal strip partition
receive-Answers_example =
    receive-Answers app app-CanSign (λ m. m) (λ m s. s) request partners partner world
      no_messages-IsSound refl refl refl

-- A refusal whose text holds a lone surrogate is not answered.
surrogate_test :
    (reject app context (naesb missing_from) (some (0xd800 ∷ [])) world).0
    ≡ err unicode_encode_error
unfolding reject signed_receipt draw_token encoded_report can_encode receipt_rejected
    description_or_default sanitize_receipt_text value is_scalar
surrogate_test = refl

-- One transmission is stored.
abbrev stored : World
stored = record world {
  messages = record {
    rows = record { id = 0; record_of = message_record request context fields (codes "d1") } ∷ [];
    next_trans = 2;
    next_id = 1;
  };
}

process_safely-settles_example :
    Ends app app-CanSign context.trans_id 0
      (IsSettled app app-CanSign context 0 fields (codes "d1") (codes "cipher"))
      (process_safely app context 0 fields (codes "d1") (codes "cipher"))
      stored
unfolding find_row
process_safely-settles_example =
    process_safely-settles app app-CanSign context 0 fields (codes "d1") (codes "cipher") stored
      (message_record request context fields (codes "d1")) refl

Reaches-IsSound_example : IsSound (record stored.messages { next_trans = 1 })
unfolding create conflicts
Reaches-IsSound_example =
    Reaches-IsSound no_messages-IsSound
      (next here (insert_row (message_record request context fields (codes "d1")) no_messages refl))

authenticate_inbound-IsFirstMatch_example :
    (header : Text) × (some (codes "Bearer key") ≡ some header)
    × IsFirstMatch ascii_python outside.auth outside.environ
        (ascii_python.lower (strip (partition b' ' header).0))
        (strip (partition b' ' header).1)
        partner
        (partners_of partners)
unfolding authenticate_inbound find_partner accepts resolve_env partners_of registry index_by insert
    values equal strip partition
authenticate_inbound-IsFirstMatch_example =
    authenticate_inbound-IsFirstMatch ascii_python outside.auth outside.environ
      (some (codes "Bearer key")) partners partner refl

Reaches-is_known_example :
    is_known partner fields
      (codes "d1")
      (update_status 0 (to_status rejected) (record stored.messages { next_trans = 1 }))
    ≡ true
unfolding create conflicts
Reaches-is_known_example =
    Reaches-is_known request context fields (codes "d1") no_messages refl
      (next here (set_status 0 (to_status rejected) (record stored.messages { next_trans = 1 })))
