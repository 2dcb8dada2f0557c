-- ===== src/Protocol/Anthropic.antt =====
-- src/protocol/anthropic/decode/: the Anthropic stream.
pub mod Errors
pub mod Blocks
pub mod Messages
mod Actions
pub mod Routed
pub mod Full
mod Replayed
pub mod Closed
use brazen.Base.{
  ℕ, true, Bool, List, [], ◌∷◌, Option, none, some, Bytes, str, bytes_eq, if◌then◌else◌,
}
use brazen.Base.Result.{Result, ok, err}
use brazen.Canonical.Json.{Json}
use brazen.Canonical.Error.{CanonicalError}
use brazen.Canonical.Event.{Event, error}
use brazen.Framing.Frame.{Frame}
use brazen.Protocol.State.{DecodeState, Decode, Emit, pure, emit, modify}
use brazen.Protocol.Access.{parse, text_of, http_error}
use Errors.{error_value}
use Blocks.{content_block_start, content_block_delta, content_block_stop}
use Messages.{message_start, message_delta}

module _ (j : Json) where
  open j use {Value, at_key, as_str}

  -- The `match` on the frame's `type`.
  unfoldable pub dispatch : Bytes → Value → Emit Value (Unit {0})
  dispatch type' v =
      if bytes_eq type' (str "message_start")
      then message_start j v
      else if bytes_eq type' (str "content_block_start")
      then content_block_start j v
      else if bytes_eq type' (str "content_block_delta")
      then content_block_delta j v
      else if bytes_eq type' (str "content_block_stop")
      then content_block_stop j v
      else if bytes_eq type' (str "message_delta")
      then message_delta j v
      else if bytes_eq type' (str "message_stop")
      then modify (λ s. record s { terminated = true })
      else if bytes_eq type' (str "error")
      then emit (error (error_value j v))
      else pure tt

  -- A parsed frame.
  abbrev pub run : Value → Decode Value
  run v s = let (_, s', out) = dispatch (text_of j v (str "type")) v s in (ok out, s')

  abbrev pub decode_data : Result (CanonicalError Value) Value → Decode Value
  decode_data (ok v) s = run v s
  decode_data (err e) s = (err e, s)

  unfoldable pub decode : Frame → Decode Value
  decode frame s = elim frame.status [
    | some status ↦ (ok (error (http_error j frame.data' status) ∷ []), s)
    | none ↦ decode_data (parse j frame.data') s
  ]
