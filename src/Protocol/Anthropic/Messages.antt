-- ===== src/Protocol/Anthropic/Messages.antt =====
-- src/protocol/anthropic/decode/mod.rs: the message-level events.
use brazen.Base.{ℕ, true, Option, none, some, Bytes, str, bytes_eq, if◌then◌else◌}
use brazen.Canonical.Json.{Json}
use brazen.Canonical.Usage.{Usage, no_usage, with_input_total}
use brazen.Canonical.Event.{
  FinishReason, stop, length, stop_sequence, refusal, pause, other_reason, opening, usage, finish,
  assistant,
}
use brazen.Protocol.State.{Emit, pure, ◌>>◌, emit}
use brazen.Protocol.Access.{text_of, as_u32}

module _ (j : Json) where
  open j use {Value, at_key, get, as_str, as_u64, is_object}

  -- `u[k].as_u64().map(|x| x as u32)`
  unfoldable pub field : Value → Bytes → Option ℕ
  field u k = elim (as_u64 (at_key u k)) [ none ↦ none | some n ↦ some (as_u32 n) ]

  unfoldable pub usage_of : Value → Usage
  unfolding field with_input_total
  usage_of u = with_input_total true (record no_usage {
    input_tokens = field u (str "input_tokens");
    output_tokens = field u (str "output_tokens");
    cache_write_tokens = field u (str "cache_creation_input_tokens");
    cache_read_tokens = field u (str "cache_read_input_tokens");
  })

  -- `v.get("usage").filter(|u| u.is_object())`, and its event.
  unfoldable pub push_usage : Option Value → Emit Value (Unit {0})
  push_usage none = pure tt
  push_usage (some u) = if is_object u then emit (usage (usage_of u)) else pure tt

  unfoldable pub message_start : Value → Emit Value (Unit {0})
  message_start v = do
    let m = at_key v (str "message")
    emit (opening (as_str (at_key m (str "id"))) (as_str (at_key m (str "model"))) assistant)
    push_usage (get m (str "usage"))

  unfoldable pub finish_reason : Bytes → Value → FinishReason
  finish_reason reason d =
      if bytes_eq reason (str "end_turn")
      then stop
      else if bytes_eq reason (str "max_tokens")
      then length
      else if bytes_eq reason (str "stop_sequence")
      then stop_sequence
      else if bytes_eq reason (str "tool_use")
      then FinishReason.tool_use
      else if bytes_eq reason (str "pause_turn")
      then pause
      else if bytes_eq reason (str "refusal")
      then (let sd = at_key d (str "stop_details") in
          refusal (text_of j sd (str "category")) (as_str (at_key sd (str "explanation"))))
      else other_reason reason

  unfoldable pub push_finish : Option Bytes → Value → Emit Value (Unit {0})
  push_finish none d = pure tt
  push_finish (some reason) d = emit (finish (finish_reason reason d))

  unfoldable pub message_delta : Value → Emit Value (Unit {0})
  message_delta v = do
    push_usage (get v (str "usage"))
    let d = at_key v (str "delta")
    push_finish (as_str (at_key d (str "stop_reason"))) d
