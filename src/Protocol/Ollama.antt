-- ===== src/Protocol/Ollama.antt =====
-- src/protocol/ollama_chat/decode/: the Ollama chat stream and its complete body.
pub mod Finished
use brazen.Base.{
  ℕ, zero, suc, ◌+◌, ◌/◌, ◌%◌, Bool, true, false, ◌||◌, List, [], ◌∷◌, ◌++◌, Option, none, some,
  Bytes, str, bytes_eq, ltb, if◌then◌else◌,
}
use brazen.Base.Dict
use brazen.Base.Dict.{Dict}
use brazen.Base.Result.{Result, ok, err}
use brazen.Canonical.Json.{Json}
use brazen.Canonical.Error.{CanonicalError, transport}
use brazen.Canonical.Event.{
  ContentKind, Event, error, usage, finish, opening, assistant, content_delta, text_delta,
  thinking_delta, json_delta, FinishReason, stop, length, other_reason,
}
use brazen.Canonical.Usage.{Usage, no_usage, with_input_total}
use brazen.Framing.Frame.{Frame}
use brazen.Protocol.Calls.{call_id, has_tool, items_of, counter}
use brazen.Protocol.State.{
  OpenBlock, DecodeState, Decode, Emit, pure, ◌>>=◌, ◌>>◌, emit, gets, modify, start_block,
}
use brazen.Protocol.Access.{parse, nonempty, text_of, http_error, as_u32}
use brazen.Protocol.Synth.{next_index, open_text, open_thinking, drain}

module _ {V : Type 0} where
  unfoldable pub stream_error : Bytes → CanonicalError V
  stream_error message = record {
    kind = transport;
    message = message;
    provider_detail = none;
    retry_after_seconds = none;
  }

unfoldable pub spelled_reason : Option Bytes → FinishReason
spelled_reason none = stop
spelled_reason (some reason) =
    if bytes_eq reason (str "length")
    then length
    else if bytes_eq reason (str "stop")
    then stop
    else other_reason reason

module _ (j : Json) where
  open j use {Value, at_key, as_str, as_u64, as_bool, as_array, to_string}

  unfoldable pub push_thinking : Option Bytes → Emit Value (Unit {0})
  push_thinking none = pure tt
  push_thinking (some t) = do index ← open_thinking; emit (content_delta index (thinking_delta t))

  unfoldable pub thinking : Value → Emit Value (Unit {0})
  thinking msg = push_thinking (nonempty j (at_key msg (str "thinking")))

  unfoldable pub push_text : Option Bytes → Emit Value (Unit {0})
  push_text none = pure tt
  push_text (some t) = do index ← open_text; emit (content_delta index (text_delta t))

  unfoldable pub text : Value → Emit Value (Unit {0})
  text msg = push_text (nonempty j (at_key msg (str "content")))

  unfoldable pub tool_call : Value → Emit Value (Unit {0})
  tool_call call = do
    index ← gets next_index
    start_block index (
        ContentKind.tool_use (call_id index)
          (text_of j (at_key call (str "function")) (str "name")))
    emit (
        content_delta index
          (json_delta (to_string (at_key (at_key call (str "function")) (str "arguments")))))

  unfoldable pub tool_calls : List Value → Emit Value (Unit {0})
  tool_calls [] = pure tt
  tool_calls (call ∷ calls) = tool_call call >> tool_calls calls

  unfoldable pub finish_reason : Value → DecodeState Value → FinishReason
  unfolding has_tool spelled_reason
  finish_reason v s =
      if has_tool s.opened
      then FinishReason.tool_use
      else spelled_reason (as_str (at_key v (str "done_reason")))

  unfoldable pub usage_of : Value → Usage
  unfolding with_input_total
  usage_of v = with_input_total false (record no_usage {
    input_tokens = counter (as_u64 (at_key v (str "prompt_eval_count")));
    output_tokens = counter (as_u64 (at_key v (str "eval_count")));
  })

  -- `finish` of the done line
  unfoldable pub finish_line : Value → Emit Value (Unit {0})
  finish_line v = do
    reason ← gets (finish_reason v)
    drain
    emit (usage (usage_of v))
    emit (finish reason)
    modify (λ s. record s { terminated = true })

  unfoldable pub push_start : Bool → Value → Emit Value (Unit {0})
  push_start true v = pure tt
  push_start false v = do
    modify (λ s. record s { started = true })
    emit (opening none (as_str (at_key v (str "model"))) assistant)

  abbrev pub is_done : Option Bool → Bool
  is_done (some true) = true
  is_done _ = false

  -- Everything in front of the finish.
  unfoldable pub content : Value → Emit Value (Unit {0})
  content v = do
    started ← gets (λ s. s.started)
    push_start started v
    thinking (at_key v (str "message"))
    text (at_key v (str "message"))
    tool_calls (items_of (as_array (at_key (at_key v (str "message")) (str "tool_calls"))))

  unfoldable pub push_finish : Bool → Value → Emit Value (Unit {0})
  push_finish true v = finish_line v
  push_finish false v = pure tt

  -- `line`
  unfoldable pub line : Value → Emit Value (Unit {0})
  line v = content v >> push_finish (is_done (as_bool (at_key v (str "done")))) v

  abbrev pub line_data : Value → Decode Value
  line_data v s = let (_, s', out) = line v s in (ok out, s')

  -- A parsed frame, with the string of its error member.
  abbrev pub frame_value : Option Bytes → Value → Decode Value
  frame_value (some message) v s = (ok (error (stream_error message) ∷ []), s)
  frame_value none v s = line_data v s

  abbrev pub frame_data : Result (CanonicalError Value) Value → Decode Value
  frame_data (ok v) s = frame_value (as_str (at_key v (str "error"))) v s
  frame_data (err e) s = (err e, s)

  unfoldable pub decode : Frame → Decode Value
  unfolding parse
  decode frame s = elim frame.status [
    | some status ↦ (ok (error (http_error j frame.data' status) ∷ []), s)
    | none ↦ frame_data (parse j frame.data') s
  ]

  abbrev pub full_data : Result (CanonicalError Value) Value → Decode Value
  full_data (ok v) s = line_data v s
  full_data (err e) s = (err e, s)

  unfoldable pub decode_full : Bytes → Decode Value
  unfolding parse
  decode_full body s = full_data (parse j body) s
