-- ===== src/Sinks/Backends.antt =====
-- app/sinks/filesystem_sink.py, app/sinks/s3_sink.py and app/sinks/webhook_sink.py. The disk, the
-- object store and the HTTP client are parameters that say how a call ended.
use naesb_edi.Base.{
  ℕ, Bool, true, false, Option, none, some, ◌++◌, Text, Bytes, Result, ok, err, codes, take,
}
use naesb_edi.Fields.{format_value}
use naesb_edi.Partners.{or_default}
use naesb_edi.Sinks.{InboundMessage, SinkResult, Sink}

-- A library's call returned, raised the exception that the sink catches, or raised another one.
pub data Outcome : Type 0 where
  done : Outcome
  failed : Text → Outcome
  raised : Text → Outcome

pub record FilesystemSink : Type 0 where
  pub base_dir : Text
  pub durable : Bool

pub record S3Sink : Type 0 where
  pub bucket : Text
  pub prefix : Text
  pub region : Text
  pub endpoint_url : Option Text
  pub access_key : Text
  pub secret_key : Text
  pub durable : Bool

pub record WebhookSink : Type 0 where
  pub url : Text

pub record WebhookPayload : Type 0 where
  pub partner : Text
  pub content_digest : Text
  pub transaction_set : Option Text
  pub input_format : Text
  pub received_at : Text
  pub payload_base64 : Text

pub record BackendEnv : Type 0 where
  -- `t.strftime("%Y%m%dT%H%M%SZ")` and `t.isoformat()`
  pub strftime : ℕ → Text
  pub isoformat : ℕ → Text
  pub b64encode : Bytes → Text
  -- `Path(a) / b`
  pub join : Text → Text → Text
  -- `p.mkdir(parents=True, exist_ok=True)` and `p.write_bytes(data)`; the sink catches `OSError`
  pub mkdir : Text → Outcome
  pub write_bytes : Text → Bytes → Outcome
  -- `put_object(Bucket=..., Key=..., Body=...)` of the sink's client; it catches every exception
  pub put_object : S3Sink → Text → Bytes → Outcome
  -- `client.post(url, json=payload)` and `raise_for_status()`; the sink catches `HTTPError`
  pub post_json : Text → WebhookPayload → Outcome

abbrev pub filesystem_name : Text
filesystem_name = codes "filesystem"

abbrev pub s3_name : Text
s3_name = codes "s3"

abbrev pub webhook_name : Text
webhook_name = codes "webhook"

abbrev delivered_by : Text → SinkResult
delivered_by name = record { sink_name = name; ok = true; error = none }

abbrev refused_by : Text → Text → SinkResult
refused_by name message = record { sink_name = name; ok = false; error = some message }

-- `try: ... except OSError as exc: ...`
abbrev pub caught : Text → Outcome → Result Text SinkResult
caught name done = ok (delivered_by name)
caught name (failed message) = ok (refused_by name message)
caught name (raised message) = err message

-- `try: ... except Exception as exc: ...`
abbrev pub caught_all : Text → Outcome → Result Text SinkResult
caught_all name done = ok (delivered_by name)
caught_all name (failed message) = ok (refused_by name message)
caught_all name (raised message) = ok (refused_by name message)

abbrev then_do : Outcome → Outcome → Outcome
then_do done next = next
then_do o _ = o

module _ (env : BackendEnv) where
  -- The name of the file and of the object, without the partner's directory.
  unfoldable pub filename : InboundMessage → Text
  filename message =
      env.strftime message.received_at
      ++ (codes "_"
          ++ (take 16 message.content_digest
              ++ (codes "_"
                  ++ (or_default message.envelope.transaction_set (codes "unspecified")
                      ++ codes ".edi"))))

  -- `FilesystemSink._write`
  unfoldable pub write : FilesystemSink → InboundMessage → Outcome
  unfolding filename
  write sink message =
      let partner_dir = env.join sink.base_dir message.envelope.from_id in
      then_do (env.mkdir partner_dir)
        (env.write_bytes (env.join partner_dir (filename message)) message.plaintext)

  -- `S3Sink._put`
  unfoldable pub object_key : S3Sink → InboundMessage → Text
  unfolding filename
  object_key sink message =
      sink.prefix ++ (message.envelope.from_id ++ (codes "/" ++ filename message))

  unfoldable pub put : S3Sink → InboundMessage → Outcome
  unfolding object_key
  put sink message = env.put_object sink (object_key sink message) message.plaintext

  unfoldable pub payload : InboundMessage → WebhookPayload
  payload message = record {
    partner = message.partner_name;
    content_digest = message.content_digest;
    transaction_set = message.envelope.transaction_set;
    input_format = format_value message.envelope.input_format;
    received_at = env.isoformat message.received_at;
    payload_base64 = env.b64encode message.plaintext;
  }

  unfoldable pub filesystem_sink : FilesystemSink → Sink
  unfolding write
  filesystem_sink sink = record {
    name = filesystem_name;
    durable = sink.durable;
    deliver = λ message. caught filesystem_name (write sink message);
  }

  unfoldable pub s3_sink : S3Sink → Sink
  unfolding put
  s3_sink sink = record {
    name = s3_name;
    durable = sink.durable;
    deliver = λ message. caught_all s3_name (put sink message);
  }

  unfoldable pub webhook_sink : WebhookSink → Sink
  unfolding payload
  webhook_sink sink = record {
    name = webhook_name;
    durable = false;
    deliver = λ message. caught webhook_name (env.post_json sink.url (payload message));
  }
