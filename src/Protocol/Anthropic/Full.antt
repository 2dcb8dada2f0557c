-- ===== src/Protocol/Anthropic/Full.antt =====
-- src/protocol/anthropic/decode/mod.rs: a complete body, exploded into the steps of the stream, and
-- the dialect as a protocol (src/protocol/anthropic/mod.rs).
use brazen.Base.{
  ℕ, suc, ◌||◌, List, [], ◌∷◌, Option, none, some, Bytes, String, str, bytes_eq, if◌then◌else◌,
}
use brazen.Base.Result.{Result, ok, err}
use brazen.Canonical.Json.{Json}
use brazen.Canonical.Error.{CanonicalError}
use brazen.Framing.Frame.{Framing}
use brazen.Protocol.State.{Decode, Protocol, Emit, pure, ◌>>◌}
use brazen.Protocol.Access.{parse, text_of, nonempty, as_u32}
use brazen.Protocol.Anthropic.{decode}
use brazen.Protocol.Anthropic.Blocks.{content_block_start, content_block_delta, content_block_stop}
use brazen.Protocol.Anthropic.Messages.{message_start, message_delta}

module _ (j : Json) where
  open j use {Value, string, number, object, at_key, as_array, to_string}

  -- The steps that the stream would have brought for block `index`.
  abbrev pub start_step : ℕ → Value → Value
  start_step index block = object ((str "index", number index) ∷ (str "content_block", block) ∷ [])

  abbrev pub delta_step : ℕ → Value → Value
  delta_step index delta = object ((str "index", number index) ∷ (str "delta", delta) ∷ [])

  abbrev pub stop_step : ℕ → Value
  stop_step index = object ((str "index", number index) ∷ [])

  abbrev delta : String → String → Value → Value
  delta type' key v = object ((str "type", string (str type')) ∷ (str key, v) ∷ [])

  abbrev signature : Option Bytes → List Value
  signature none = []
  signature (some sig) = delta "signature_delta" "signature" (string sig) ∷ []

  -- The fragments of a finished block.
  unfoldable pub deltas : Value → List Value
  deltas block =
      let t = text_of j block (str "type") in
      if bytes_eq t (str "text")
      then delta "text_delta" "text" (at_key block (str "text")) ∷ []
      else if bytes_eq t (str "tool_use") || bytes_eq t (str "server_tool_use")
      then (delta "input_json_delta" "partial_json"
            (string (to_string (at_key block (str "input"))))
          ∷ [])
      else if bytes_eq t (str "thinking")
      then (delta "thinking_delta" "thinking" (at_key block (str "thinking"))
          ∷ signature (nonempty j (at_key block (str "signature"))))
      else []

  unfoldable pub push_deltas : ℕ → List Value → Emit Value (Unit {0})
  push_deltas index [] = pure tt
  push_deltas index (d ∷ ds) = content_block_delta j (delta_step index d) >> push_deltas index ds

  unfoldable pub explode_block : ℕ → Value → Emit Value (Unit {0})
  explode_block index block = do
    content_block_start j (start_step index block)
    push_deltas index (deltas block)
    content_block_stop j (stop_step index)

  -- The loop over `enumerate()`, from position `i` on.
  unfoldable pub explode_blocks : ℕ → List Value → Emit Value (Unit {0})
  explode_blocks i [] = pure tt
  explode_blocks i (block ∷ blocks) =
      explode_block (as_u32 i) block >> explode_blocks (suc i) blocks

  abbrev pub content : Option (List Value) → List Value
  content none = []
  content (some blocks) = blocks

  abbrev pub final_step : Value → Value
  final_step v =
      let copy : String → Bytes × Value = λ key. (str key, at_key v (str key)) in
      object (
        (str "delta", object (copy "stop_reason" ∷ copy "stop_sequence" ∷ copy "stop_details" ∷ []))
        ∷ [])

  unfoldable pub explode : Value → Emit Value (Unit {0})
  explode v = do
    message_start j (object ((str "message", v) ∷ []))
    explode_blocks 0 (content (as_array (at_key v (str "content"))))
    message_delta j (final_step v)

  abbrev pub full_data : Result (CanonicalError Value) Value → Decode Value
  full_data (ok v) s = let (_, s', out) = explode v s in (ok out, s')
  full_data (err e) s = (err e, s)

  unfoldable pub decode_full : Bytes → Decode Value
  decode_full body s = full_data (parse j body) s

  abbrev pub anthropic : Protocol Value
  anthropic = record { decode = decode j; decode_full = decode_full; framing = Framing.sse }
