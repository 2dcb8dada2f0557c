-- ===== src/Protocol/Openai/Errors.antt =====
-- src/protocol/openai/decode/errors.rs: the error frames of the OpenAI chat stream.
use brazen.Base.{◌%◌, ◌^◌, ◌||◌, none, some, Bytes, str, if◌then◌else◌}
use brazen.Base.Text.{contains}
use brazen.Canonical.Json.{Json}
use brazen.Canonical.Error.{ErrorKind, provider, transport, from_http_status, CanonicalError}
use brazen.Protocol.Access.{text_of, or_else, or_empty}

-- The kind that a string tag names.
unfoldable pub tag_kind : Bytes → ErrorKind
tag_kind tag =
    if contains (str "rate_limit") tag || contains (str "quota") tag
    then provider 429
    else if contains (str "server") tag
        || contains (str "overload") tag
        || contains (str "unavailable") tag
    then provider 500
    else transport

module _ (j : Json) where
  open j use {Value, at_key, as_str, as_u64}

  -- A numeric code is a status, cut to 16 bits.
  unfoldable pub error_kind : Value → ErrorKind
  unfolding from_http_status tag_kind
  error_kind e = elim (as_u64 (at_key e (str "code"))) [
    | some status ↦ from_http_status (status % 2 ^ 16)
    | none ↦
        tag_kind
          (or_empty (or_else (as_str (at_key e (str "type"))) (as_str (at_key e (str "code")))))
  ]

  unfoldable pub stream_error : Value → CanonicalError Value
  unfolding error_kind text_of
  stream_error e = record {
    kind = error_kind e;
    message = text_of j e (str "message");
    provider_detail = some e;
    retry_after_seconds = none;
  }
