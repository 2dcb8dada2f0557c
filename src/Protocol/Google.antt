-- ===== src/Protocol/Google.antt =====
-- src/protocol/google_genai/decode/: the Google stream, which google_cloudcode wraps in an envelope
-- that `unwrap` takes off. `str::to_lowercase`, a table of the Unicode standard, is a parameter.
pub mod Finished
use brazen.Base.{
  ℕ, ◌%◌, ◌^◌, Bool, true, false, ◌||◌, List, [], ◌∷◌, Option, none, some, Bytes, str, bytes_eq,
  get_or, if◌then◌else◌,
}
use brazen.Base.Result.{Result, ok, err}
use brazen.Canonical.Json.{Json}
use brazen.Canonical.Error.{CanonicalError, from_http_status}
use brazen.Canonical.Event.{
  ContentKind, Event, error, usage, finish, opening, assistant, content_delta, text_delta,
  thinking_delta, json_delta, signature_delta, image_delta, FinishReason, stop, length, refusal,
  other_reason,
}
use brazen.Canonical.Usage.{Usage, no_usage, with_input_total, with_thinking}
use brazen.Framing.Frame.{Frame}
use brazen.Protocol.Calls.{call_id, has_tool, items_of, counter}
use brazen.Protocol.State.{
  DecodeState, Decode, Emit, pure, ◌>>=◌, ◌>>◌, emit, gets, modify, start_block,
}
use brazen.Protocol.Access.{parse, nonempty, text_of, http_error}
use brazen.Protocol.Synth.{next_index, open_text, open_thinking, drain}

unfoldable pub spelled_reason : (Bytes → Bytes) → Bytes → FinishReason
spelled_reason to_lowercase reason =
    if bytes_eq reason (str "STOP")
    then stop
    else if bytes_eq reason (str "MAX_TOKENS")
    then length
    else if bytes_eq reason (str "SAFETY")
        || bytes_eq reason (str "PROHIBITED_CONTENT")
        || bytes_eq reason (str "BLOCKLIST")
    then refusal (to_lowercase reason) none
    else other_reason reason

module _ (j : Json) where
  open j use {Value, at_key, at_index, get, as_str, as_u64, as_bool, as_array, is_object, to_string}

  unfoldable pub stream_error : Value → CanonicalError Value
  unfolding from_http_status text_of
  stream_error e = record {
    kind = from_http_status (get_or (as_u64 (at_key e (str "code"))) 0 % 2 ^ 16);
    message = text_of j e (str "message");
    provider_detail = some e;
    retry_after_seconds = none;
  }

  -- `get(key).filter(|c| c.is_object())`
  abbrev object_of : Option Value → Option Value
  object_of none = none
  object_of (some v) = if is_object v then some v else none

  abbrev pub is_thought : Option Bool → Bool
  is_thought (some true) = true
  is_thought _ = false

  unfoldable pub push_fragment : Bool → Option Bytes → Emit Value (Unit {0})
  push_fragment thought none = pure tt
  push_fragment true (some t) = do
    index ← open_thinking
    emit (content_delta index (thinking_delta t))
  push_fragment false (some t) = do index ← open_text; emit (content_delta index (text_delta t))

  unfoldable pub push_signature : ℕ → Option Bytes → Emit Value (Unit {0})
  push_signature index none = pure tt
  push_signature index (some sig) = emit (content_delta index (signature_delta sig))

  unfoldable pub push_call : Value → Option Value → Emit Value (Unit {0})
  push_call part none = pure tt
  push_call part (some call) = do
    index ← gets next_index
    start_block index (ContentKind.tool_use (call_id index) (text_of j call (str "name")))
    emit (content_delta index (json_delta (to_string (at_key call (str "args")))))
    push_signature index (nonempty j (at_key part (str "thoughtSignature")))

  unfoldable pub push_image : Option Value → Emit Value (Unit {0})
  push_image none = pure tt
  push_image (some img) = do
    index ← gets next_index
    start_block index (ContentKind.image (text_of j img (str "mimeType")))
    emit (content_delta index (image_delta (text_of j img (str "data"))))

  unfoldable pub part_events : Value → Emit Value (Unit {0})
  part_events part = do
    push_fragment (is_thought (as_bool (at_key part (str "thought"))))
        (nonempty j (at_key part (str "text")))
    push_call part (object_of (get part (str "functionCall")))
    push_image (object_of (get part (str "inlineData")))

  unfoldable pub parts : List Value → Emit Value (Unit {0})
  parts [] = pure tt
  parts (part ∷ rest) = part_events part >> parts rest

  unfoldable pub usage_of : Value → Usage
  unfolding with_input_total with_thinking
  usage_of u =
      let served : Usage = record no_usage {
        input_tokens = counter (as_u64 (at_key u (str "promptTokenCount")));
        output_tokens = counter (as_u64 (at_key u (str "candidatesTokenCount")));
        cache_read_tokens = counter (as_u64 (at_key u (str "cachedContentTokenCount")));
      } in
      with_thinking (counter (as_u64 (at_key u (str "thoughtsTokenCount")))) false
        (with_input_total false served)

  unfoldable pub push_usage : Option Value → Emit Value (Unit {0})
  push_usage none = pure tt
  push_usage (some u) = emit (usage (usage_of u))

  abbrev pub metadata : Value → Option Value
  metadata v = object_of (get v (str "usageMetadata"))

  unfoldable pub terminate : FinishReason → Value → Emit Value (Unit {0})
  terminate reason v = do
    drain
    push_usage (metadata v)
    emit (finish reason)
    modify (λ s. record s { terminated = true })

  unfoldable pub push_start : Bool → Value → Emit Value (Unit {0})
  push_start true v = pure tt
  push_start false v = do
    modify (λ s. record s { started = true })
    emit (opening none (as_str (at_key v (str "modelVersion"))) assistant)

  abbrev pub candidate : Value → Value
  candidate v = at_index (at_key v (str "candidates")) 0

  -- Everything in front of the finish.
  unfoldable pub content : Value → Emit Value (Unit {0})
  content v = do
    started ← gets (λ s. s.started)
    push_start started v
    parts (items_of (as_array (at_key (at_key (candidate v) (str "content")) (str "parts"))))

module _ (j : Json) (to_lowercase : Bytes → Bytes) where
  open j use {Value, at_key, as_str, is_object}

  unfoldable pub finish_reason : Bytes → DecodeState Value → FinishReason
  unfolding has_tool spelled_reason
  finish_reason reason s =
      if has_tool s.opened then FinishReason.tool_use else spelled_reason to_lowercase reason

  -- The finish of a candidate, of a blocked prompt, or neither.
  unfoldable pub push_end : Option Bytes → Option Bytes → Value → Emit Value (Unit {0})
  push_end (some reason) blocked v = do why ← gets (finish_reason reason); terminate j why v
  push_end none (some reason) v = terminate j (refusal (to_lowercase reason) none) v
  push_end none none v = push_usage j (metadata j v)

  unfoldable pub chunk : Value → Emit Value (Unit {0})
  chunk v =
      content j v
      >> push_end (as_str (at_key (candidate j v) (str "finishReason")))
          (as_str (at_key (at_key v (str "promptFeedback")) (str "blockReason"))) v

  -- An unwrapped frame.
  unfoldable pub frame_value : Value → Emit Value (Unit {0})
  frame_value v =
      if is_object (at_key v (str "error"))
      then emit (error (stream_error j (at_key v (str "error"))))
      else chunk v

  abbrev pub run_value : (Value → Emit Value (Unit {0})) → Value → Decode Value
  run_value handle v s = let (_, s', out) = handle v s in (ok out, s')

  abbrev pub frame_data :
      (Value → Emit Value (Unit {0}))
      → (Value → Value)
      → Result (CanonicalError Value) Value
      → Decode Value
  frame_data handle unwrap (ok v) s = run_value handle (unwrap v) s
  frame_data handle unwrap (err e) s = (err e, s)

  unfoldable pub decode_frame : (Value → Value) → Frame → Decode Value
  unfolding parse
  decode_frame unwrap frame s = elim frame.status [
    | some status ↦ (ok (error (http_error j frame.data' status) ∷ []), s)
    | none ↦ frame_data frame_value unwrap (parse j frame.data') s
  ]

  unfoldable pub decode_full_with : (Value → Value) → Bytes → Decode Value
  unfolding parse
  decode_full_with unwrap body s = frame_data chunk unwrap (parse j body) s
