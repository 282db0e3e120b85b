-- ===== src/Sinks.antt =====
-- app/sinks/dispatcher.py and app/sinks/base.py, with app/message.py. A sink's `deliver` is a
-- function to its result, or to the text of the exception that it raised.
pub mod Backends
pub mod Names
pub mod Kept
use naesb_edi.Base.{
  ℕ, Bool, true, false, Option, none, some, List, [], ◌∷◌, map, Text, Bytes, Result, ok, err, any,
  if◌then◌else◌,
}
use naesb_edi.Base.Dict.{Dict, lookup, insert}
use naesb_edi.Fields.{EnvelopeFields}

pub record InboundMessage : Type 0 where
  pub partner_name : Text
  pub content_digest : Text
  pub envelope : EnvelopeFields
  pub plaintext : Bytes
  pub received_at : ℕ

pub record SinkResult : Type 0 where
  pub sink_name : Text
  pub ok : Bool
  pub error : Option Text

pub record Sink : Type 0 where
  pub name : Text
  pub durable : Bool
  pub deliver : InboundMessage → Result Text SinkResult

abbrev pub safe_result : Text → Result Text SinkResult → SinkResult
safe_result name (ok r) = r
safe_result name (err message) = record { sink_name = name; ok = false; error = some message }

unfoldable pub deliver_safely : Sink → InboundMessage → SinkResult
deliver_safely sink message = safe_result sink.name (sink.deliver message)

-- `{result.sink_name: result for result in results}`
unfoldable pub by_sink : List SinkResult → Dict SinkResult → Dict SinkResult
by_sink [] d = d
by_sink (r ∷ rs) d = by_sink rs (insert r.sink_name r d)

unfoldable pub fan_out : List Sink → InboundMessage → Dict SinkResult
unfolding by_sink deliver_safely
fan_out sinks message = by_sink (map (λ s. deliver_safely s message) sinks) []

-- `{sink.name for sink in sinks if sink.durable}`
unfoldable pub durable_names : List Sink → List Text
durable_names [] = []
durable_names (s ∷ ss) = let rest = durable_names ss in if s.durable then s.name ∷ rest else rest

abbrev pub is_success : Option SinkResult → Bool
is_success none = false
is_success (some r) = r.ok

abbrev any_success : List Text → Dict SinkResult → Bool
any_success [] results = true
any_success (n ∷ ns) results = any (λ name. is_success (lookup name results)) (n ∷ ns)

unfoldable pub has_durable_success : List Sink → Dict SinkResult → Bool
unfolding durable_names
has_durable_success sinks results = any_success (durable_names sinks) results
