-- ===== src/Protocol/Anthropic/Errors.antt =====
-- src/protocol/anthropic/decode/errors.rs: an `error` event on a 2xx stream.
use brazen.Base.{◌||◌, none, some, Bytes, str, bytes_eq, if◌then◌else◌}
use brazen.Canonical.Json.{Json}
use brazen.Canonical.Error.{ErrorKind, CanonicalError, auth, provider, transport}
use brazen.Protocol.Access.{text_of}

unfoldable pub error_kind : Bytes → ErrorKind
error_kind t =
    if bytes_eq t (str "authentication_error") || bytes_eq t (str "permission_error")
    then auth
    else if bytes_eq t (str "invalid_request_error")
    then provider 400
    else if bytes_eq t (str "billing_error")
    then provider 402
    else if bytes_eq t (str "not_found_error")
    then provider 404
    else if bytes_eq t (str "request_too_large")
    then provider 413
    else if bytes_eq t (str "rate_limit_error")
    then provider 429
    else if bytes_eq t (str "api_error")
    then provider 500
    else if bytes_eq t (str "timeout_error")
    then provider 504
    else if bytes_eq t (str "overloaded_error")
    then provider 529
    else transport

module _ (j : Json) where
  open j use {Value, at_key}

  unfoldable pub error_value : Value → CanonicalError Value
  unfolding error_kind
  error_value v =
      let error' = at_key v (str "error") in
      record {
        kind = error_kind (text_of j error' (str "type"));
        message = text_of j error' (str "message");
        provider_detail = some error';
        retry_after_seconds = none;
      }
