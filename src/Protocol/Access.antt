-- ===== src/Protocol/Access.antt =====
-- src/protocol/json.rs: the accessors that every decoder reads JSON by, and the one projection of a
-- non-2xx body.
pub use brazen.Base.{or_else}
use brazen.Base.{ℕ, ◌%◌, ◌^◌, [], Option, none, some, Bytes, str, if◌then◌else◌}
use brazen.Base.Result.{Result, ok, err}
use brazen.Base.Text.{is_empty, trim}
use brazen.Canonical.Json.{Json}
use brazen.Canonical.Error.{CanonicalError, transport, from_http_status}
use brazen.Framing.Utf8.{from_utf8_lossy}

-- `unwrap_or_default()` on a string.
abbrev pub or_empty : Option Bytes → Bytes
or_empty none = []
or_empty (some s) = s

-- `as u32` of an `u64`
abbrev pub as_u32 : ℕ → ℕ
as_u32 n = n % 2 ^ 32

-- `filter(|s| !s.is_empty())`
abbrev pub filter_nonempty : Option Bytes → Option Bytes
filter_nonempty none = none
filter_nonempty (some s) = if is_empty s then none else some s

module _ (j : Json) where
  open j use {Value, string, at_key, as_str, as_u64, from_slice, to_string}

  -- A body that is no JSON is a `Transport` error with the parser's text.
  unfoldable pub parse : Bytes → Result (CanonicalError Value) Value
  parse bytes = elim (from_slice bytes) [
    | ok v ↦ ok v
    | err text ↦ err (record {
      kind = transport;
      message = text;
      provider_detail = none;
      retry_after_seconds = none;
    })
  ]

  unfoldable pub text_of : Value → Bytes → Bytes
  text_of v key = or_empty (as_str (at_key v key))

  unfoldable pub nonempty : Value → Option Bytes
  unfolding is_empty
  nonempty v = filter_nonempty (as_str v)

  unfoldable pub u32_at : Value → Bytes → ℕ
  u32_at v key = elim (as_u64 (at_key v key)) [ none ↦ 0 | some n ↦ as_u32 n ]

  unfoldable pub error_message : Value → Bytes
  error_message body =
      elim (or_else (as_str (at_key (at_key body (str "error")) (str "message")))
        (or_else (as_str (at_key body (str "error"))) (as_str (at_key body (str "detail"))))) [
          | some m ↦ m
          | none ↦ to_string body
        ]

  -- The message and the detail: of a JSON body, of another body, of an empty one.
  unfoldable pub error_body : Bytes → Bytes × Option Value
  unfolding error_message
  error_body bytes = elim (from_slice bytes) [
    | ok body ↦ (error_message body, some body)
    | err _ ↦
        let raw = trim (from_utf8_lossy bytes) in
        if is_empty raw then ([], none) else (raw, some (string raw))
  ]

  unfoldable pub http_error : Bytes → ℕ → CanonicalError Value
  unfolding error_body from_http_status
  http_error bytes status = record {
    kind = from_http_status status;
    message = (error_body bytes).0;
    provider_detail = (error_body bytes).1;
    retry_after_seconds = none;
  }
