-- ===== src/Protocol/Anthropic/Blocks.antt =====
-- src/protocol/anthropic/decode/blocks.rs: the content-block events.
use brazen.Base.{ℕ, not, ◌&&◌, Option, none, some, str, bytes_eq, if◌then◌else◌, is_some}
use brazen.Base.Dict
use brazen.Base.Text.{ends_with}
use brazen.Canonical.Json.{Json}
use brazen.Canonical.Event.{
  ContentKind, text, thinking, redacted_thinking, server_tool_use, server_tool_result, Delta,
  text_delta, json_delta, thinking_delta, signature_delta, content_delta,
}
use brazen.Protocol.State.{Emit, pure, ◌>>=◌, emit, gets, start_block, stop_block}
use brazen.Protocol.Access.{text_of, u32_at}

module _ (j : Json) where
  open j use {Value, at_key}

  -- The canonical kind of a `content_block`, if there is one.
  unfoldable pub block_kind : Value → Option (ContentKind Value)
  block_kind cb =
      let t = text_of j cb (str "type") in
      if bytes_eq t (str "text")
      then some text
      else if bytes_eq t (str "tool_use")
      then some (ContentKind.tool_use (text_of j cb (str "id")) (text_of j cb (str "name")))
      else if bytes_eq t (str "thinking")
      then some (thinking none)
      else if bytes_eq t (str "redacted_thinking")
      then some (redacted_thinking (text_of j cb (str "data")))
      else if bytes_eq t (str "server_tool_use")
      then some (server_tool_use (text_of j cb (str "id")) (text_of j cb (str "name")))
      else if ends_with (str "_tool_result") t && not (bytes_eq t (str "tool_result"))
      then some
          (server_tool_result t (text_of j cb (str "tool_use_id")) (at_key cb (str "content")))
      else none

  -- A kind that is unknown opens nothing.
  unfoldable pub start_kind : ℕ → Option (ContentKind Value) → Emit Value (Unit {0})
  start_kind index none = pure tt
  start_kind index (some kind) = start_block index kind

  unfoldable pub content_block_start : Value → Emit Value (Unit {0})
  content_block_start v =
      start_kind (u32_at j v (str "index")) (block_kind (at_key v (str "content_block")))

  -- The canonical fragment of a `delta`, if there is one.
  unfoldable pub delta_of : Value → Option (Delta Value)
  delta_of d =
      let t = text_of j d (str "type") in
      if bytes_eq t (str "text_delta")
      then some (text_delta (text_of j d (str "text")))
      else if bytes_eq t (str "input_json_delta")
      then some (json_delta (text_of j d (str "partial_json")))
      else if bytes_eq t (str "thinking_delta")
      then some (thinking_delta (text_of j d (str "thinking")))
      else if bytes_eq t (str "signature_delta")
      then some (signature_delta (text_of j d (str "signature")))
      else none

  unfoldable pub push_delta : ℕ → Option (Delta Value) → Emit Value (Unit {0})
  push_delta index none = pure tt
  push_delta index (some d) = emit (content_delta index d)

  unfoldable pub content_block_delta : Value → Emit Value (Unit {0})
  content_block_delta v = do
    let index = u32_at j v (str "index")
    opened ← gets (λ s. is_some (Dict.get index s.opened))
    if opened then push_delta index (delta_of (at_key v (str "delta"))) else pure tt

  unfoldable pub content_block_stop : Value → Emit Value (Unit {0})
  content_block_stop v = do
    let index = u32_at j v (str "index")
    opened ← gets (λ s. is_some (Dict.get index s.opened))
    if opened then stop_block index else pure tt
