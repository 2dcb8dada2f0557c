-- ===== src/Protocol/Responses/Terminal.antt =====
-- src/protocol/openai_responses/decode/terminal.rs: how a Responses stream ends.
use brazen.Base.{
  Bool, true, false, ◌||◌, List, [], ◌∷◌, Option, none, some, Bytes, str, bytes_eq, if◌then◌else◌,
}
use brazen.Base.Text.{is_empty}
use brazen.Canonical.Json.{Json}
use brazen.Canonical.Error.{CanonicalError, ErrorKind, provider, transport}
use brazen.Canonical.Event.{usage, finish, FinishReason, stop, length, refusal, other_reason}
use brazen.Canonical.Usage.{Usage, no_usage, with_input_total, with_thinking}
use brazen.Protocol.Calls.{items_of, counter}
use brazen.Protocol.State.{Emit, pure, ◌>>=◌, ◌>>◌, emit, gets, modify}
use brazen.Protocol.Access.{text_of, or_else, or_empty}
use brazen.Protocol.Synth.{drain}

unfoldable pub tag_kind : Bytes → ErrorKind
tag_kind tag =
    if bytes_eq tag (str "server_error")
    then provider 500
    else if bytes_eq tag (str "rate_limit_exceeded") || bytes_eq tag (str "rate_limit_error")
    then provider 429
    else transport

abbrev status_reason : Option Bytes → FinishReason
status_reason none = stop
status_reason (some status) =
    if bytes_eq status (str "completed") then stop else other_reason status

module _ (j : Json) where
  open j use {Value, at_key, get, as_str, as_u64, as_array, is_object}

  unfoldable pub usage_of : Value → Usage
  unfolding with_input_total with_thinking
  usage_of u =
      let served : Usage = record no_usage {
        input_tokens = counter (as_u64 (at_key u (str "input_tokens")));
        output_tokens = counter (as_u64 (at_key u (str "output_tokens")));
        cache_read_tokens =
            counter (as_u64 (at_key (at_key u (str "input_tokens_details")) (str "cached_tokens")));
      } in
      with_thinking
        (counter
          (as_u64 (at_key (at_key u (str "output_tokens_details")) (str "reasoning_tokens"))))
        true (with_input_total false served)

  unfoldable pub push_usage : Option Value → Emit Value (Unit {0})
  push_usage none = pure tt
  push_usage (some u) = if is_object u then emit (usage (usage_of u)) else pure tt

  -- `terminal`; its first loop is that of `drain`.
  unfoldable pub terminal : Value → FinishReason → Emit Value (Unit {0})
  terminal response reason = do
    drain
    push_usage (get response (str "usage"))
    emit (finish reason)
    modify (λ s. record s { terminated = true })

  -- `any(|i| i["type"] == "function_call")`
  unfoldable pub has_call : List Value → Bool
  has_call [] = false
  has_call (i ∷ is) =
      bytes_eq (or_empty (as_str (at_key i (str "type")))) (str "function_call") || has_call is

  unfoldable pub completed_finish : Value → Bytes → FinishReason
  unfolding is_empty has_call
  completed_finish response said =
      if is_empty said
      then (if has_call (items_of (as_array (at_key response (str "output"))))
          then FinishReason.tool_use
          else status_reason (as_str (at_key response (str "status"))))
      else refusal (str "refusal") (some said)

  unfoldable pub completed : Value → Emit Value (Unit {0})
  completed v = do
    reason ← gets (λ s. completed_finish (at_key v (str "response")) s.refusal)
    terminal (at_key v (str "response")) reason

  unfoldable pub incomplete_reason : Bytes → FinishReason
  incomplete_reason r = if bytes_eq r (str "max_output_tokens") then length else other_reason r

  unfoldable pub incomplete : Value → Emit Value (Unit {0})
  incomplete v =
      let response = at_key v (str "response") in
      terminal response (
        incomplete_reason
          (or_empty (as_str (at_key (at_key response (str "incomplete_details")) (str "reason")))))

  unfoldable pub stream_error : Value → CanonicalError Value
  unfolding tag_kind text_of
  stream_error v =
      let inner = at_key (at_key v (str "response")) (str "error") in
      let e = if is_object inner then inner else at_key v (str "error") in
      record {
        kind =
            tag_kind (
              or_empty (or_else (as_str (at_key e (str "code"))) (as_str (at_key e (str "type")))));
        message = text_of j e (str "message");
        provider_detail = some e;
        retry_after_seconds = none;
      }
