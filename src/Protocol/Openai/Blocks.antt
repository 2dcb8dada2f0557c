-- ===== src/Protocol/Openai/Blocks.antt =====
-- src/protocol/openai/decode/blocks.rs: the blocks and the finish of the OpenAI chat stream.
use brazen.Base.{ℕ, ◌||◌, Option, none, some, Bytes, str, bytes_eq, if◌then◌else◌}
use brazen.Base.Dict
use brazen.Base.Text.{is_empty}
use brazen.Canonical.Json.{Json}
use brazen.Canonical.Event.{
  ContentKind, Delta, text_delta, thinking_delta, json_delta, FinishReason, stop, length, refusal,
  other_reason, content_delta,
}
use brazen.Canonical.Event
use brazen.Protocol.State.{Emit, pure, ◌>>=◌, ◌>>◌, emit, gets, modify, start_block}
use brazen.Protocol.Access.{text_of, nonempty, u32_at}
use brazen.Protocol.Synth.{next_index, open_text, open_thinking, drain}

-- The reason, from its spelling and the refusal so far.
unfoldable pub finish_reason : Bytes → Bytes → FinishReason
finish_reason reason said =
    if is_empty said
    then (if bytes_eq reason (str "stop")
        then stop
        else if bytes_eq reason (str "length")
        then length
        else if bytes_eq reason (str "tool_calls") || bytes_eq reason (str "function_call")
        then FinishReason.tool_use
        else if bytes_eq reason (str "content_filter")
        then refusal (str "content_filter") none
        else other_reason reason)
    else refusal (str "refusal") (some said)

module _ (j : Json) where
  open j use {Value, at_key}

  unfoldable pub push_thinking : Option Bytes → Emit Value (Unit {0})
  push_thinking none = pure tt
  push_thinking (some t) = do index ← open_thinking; emit (content_delta index (thinking_delta t))

  unfoldable pub thinking : Value → Emit Value (Unit {0})
  thinking delta = push_thinking (nonempty j (at_key delta (str "reasoning_content")))

  unfoldable pub push_text : Option Bytes → Emit Value (Unit {0})
  push_text none = pure tt
  push_text (some t) = do index ← open_text; emit (content_delta index (text_delta t))

  unfoldable pub text : Value → Emit Value (Unit {0})
  text delta = push_text (nonempty j (at_key delta (str "content")))

  -- The block of the wire's index `t`, opened at its first sight.
  unfoldable pub call_block : Value → ℕ → Option ℕ → Emit Value ℕ
  call_block call t (some c) = pure c
  call_block call t none = do
    c ← gets next_index
    modify (λ s. record s { tool_index = Dict.insert t c s.tool_index })
    start_block c (
        ContentKind.tool_use (text_of j call (str "id"))
          (text_of j (at_key call (str "function")) (str "name")))
    pure c

  unfoldable pub push_arguments : ℕ → Option Bytes → Emit Value (Unit {0})
  push_arguments index none = pure tt
  push_arguments index (some arg) = emit (content_delta index (json_delta arg))

  unfoldable pub tool_call : Value → Emit Value (Unit {0})
  tool_call call = do
    let t = u32_at j call (str "index")
    known ← gets (λ s. Dict.get t s.tool_index)
    index ← call_block call t known
    push_arguments index (nonempty j (at_key (at_key call (str "function")) (str "arguments")))

  unfoldable pub finish : Bytes → Emit Value (Unit {0})
  finish reason = do
    drain
    said ← gets (λ s. s.refusal)
    emit (Event.finish (finish_reason reason said))
