-- ===== src/Protocol/ClaudeCode.antt =====
-- src/protocol/claude_code/decode.rs: the lines that the `claude` program prints.
pub mod Lines
use brazen.Base.{
  ℕ, ◌%◌, ◌^◌, ◌==◌, ◌||◌, ◌&&◌, Bool, true, false, List, [], ◌∷◌, ◌++◌, Option, none, some, Bytes,
  str, bytes_eq, if◌then◌else◌,
}
use brazen.Base.Result.{Result, ok, err}
use brazen.Canonical.Json.{Json}
use brazen.Canonical.Error.{ErrorKind, auth, transport, from_http_status, CanonicalError}
use brazen.Canonical.Event.{Event, error}
use brazen.Framing.Frame.{Frame, Framing}
use brazen.Framing.Sse.{split_on}
use brazen.Protocol.Access.{parse, or_empty}
use brazen.Protocol.Anthropic
use brazen.Protocol.State.{DecodeState, Decode, Protocol}

abbrev pub is_true : Option Bool → Bool
is_true none = false
is_true (some b) = b

-- `== Some("authentication_failed")`
abbrev pub is_auth_tag : Option Bytes → Bool
is_auth_tag none = false
is_auth_tag (some tag) = bytes_eq tag (str "authentication_failed")

-- `u8::is_ascii_whitespace`
abbrev is_ascii_whitespace : ℕ → Bool
is_ascii_whitespace b = b == 32 || b == 9 || b == 10 || b == 12 || b == 13

unfoldable pub is_blank : Bytes → Bool
is_blank [] = true
is_blank (b ∷ bs) = is_ascii_whitespace b && is_blank bs

-- A frame of one line.
abbrev pub line_frame : Bytes → Frame
line_frame line = record { event = none; data' = line; status = none }

abbrev pub Answer : Type 0 → Type 0
Answer V = Result (CanonicalError V) (List (Event V)) × DecodeState V

module _ {V : Type 0} where
  abbrev pub prepend : List (Event V) → Answer V → Answer V
  prepend evs (ok more, s) = (ok (evs ++ more), s)
  prepend evs (err e, s) = (err e, s)

  -- `out.extend(…?)`
  unfoldable pub and_then : Answer V → (DecodeState V → Answer V) → Answer V
  and_then (ok evs, s) next = prepend evs (next s)
  and_then (err e, s) next = (err e, s)

  -- The tag of a failed run.
  unfoldable pub note_tag : Option Bytes → DecodeState V → DecodeState V
  note_tag none s = s
  note_tag (some tag) s = record s { error_tag = some tag }

module _ (j : Json) where
  open j use {Value, at_key, as_str, as_u64, as_bool, to_string}

  unfoldable pub result_kind : Option ℕ → Option Bytes → ErrorKind
  unfolding from_http_status
  result_kind (some status) tag = from_http_status (status % 2 ^ 16)
  result_kind none tag = if is_auth_tag tag then auth else transport

  abbrev result_message : Bytes → Bytes
  result_message [] = str "claude exited with an error"
  result_message (b ∷ bs) = b ∷ bs

  unfoldable pub result_error : Value → DecodeState Value → CanonicalError Value
  result_error v s = record {
    kind = result_kind (as_u64 (at_key v (str "api_error_status"))) s.error_tag;
    message = result_message (or_empty (as_str (at_key v (str "result"))));
    provider_detail = some v;
    retry_after_seconds = none;
  }

  unfoldable pub no_stream : Value → CanonicalError Value
  no_stream v = record {
    kind = transport;
    message = str "claude exited without a message stream (result with no completion)";
    provider_detail = some v;
    retry_after_seconds = none;
  }

  unfoldable pub result_events : Value → DecodeState Value → List (Event Value) × DecodeState Value
  unfolding result_error no_stream
  result_events v s =
      let s' : DecodeState Value = record s { terminated = true } in
      if is_true (as_bool (at_key v (str "is_error")))
      then (error (result_error v s') ∷ [], s')
      else if s.terminated
      then ([], s')
      else (error (no_stream v) ∷ [], s')

  -- The event that a line wraps.
  abbrev inner_frame : Value → Frame
  inner_frame v = line_frame (to_string (at_key v (str "event")))

  unfoldable pub line_value : Value → Decode Value
  line_value v s =
      let ty = or_empty (as_str (at_key v (str "type"))) in
      if bytes_eq ty (str "stream_event")
      then Anthropic.decode j (inner_frame v) s
      else if bytes_eq ty (str "assistant")
      then (ok [], note_tag (as_str (at_key v (str "error"))) s)
      else if bytes_eq ty (str "result")
      then (let (evs, s') = result_events v s in (ok evs, s'))
      else (ok [], s)

  abbrev pub line_data : Result (CanonicalError Value) Value → Decode Value
  line_data (ok v) s = line_value v s
  line_data (err e) s = (err e, s)

  unfoldable pub decode : Frame → Decode Value
  decode frame s = elim frame.status [
    | some status ↦ Anthropic.decode j frame s
    | none ↦ line_data (parse j frame.data') s
  ]

  -- A blank line is left out.
  unfoldable pub next_line : Bool → Decode Value → Answer Value → DecodeState Value → Answer Value
  next_line true rest answer s = rest s
  next_line false rest answer s = and_then answer rest

  unfoldable pub decode_lines : List Bytes → Decode Value
  decode_lines [] s = (ok [], s)
  decode_lines (line ∷ lines) s =
      next_line (is_blank line) (decode_lines lines) (decode (line_frame line) s) s

  unfoldable pub decode_full : Bytes → Decode Value
  unfolding split_on
  decode_full body s = decode_lines (split_on 10 [] body) s

  -- src/protocol/claude_code/mod.rs, the response half
  abbrev pub claude_code : Protocol Value
  claude_code = record { decode = decode; decode_full = decode_full; framing = Framing.ndjson }
