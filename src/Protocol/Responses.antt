-- ===== src/Protocol/Responses.antt =====
-- src/protocol/openai_responses/decode/mod.rs and terminal.rs: the events of the OpenAI Responses
-- stream, which numbers its blocks by an item and a part.
pub mod Terminal
pub mod Tracked
pub mod Full
use brazen.Base.{
  ℕ, ◌%◌, ◌^◌, Bool, true, false, ◌&&◌, ◌||◌, ◌==◌, List, [], ◌∷◌, ◌++◌, Option, none, some, Bytes,
  str, bytes_eq, length, is_some, get_or, if◌then◌else◌,
}
use brazen.Base.Dict
use brazen.Base.Dict.{Dict, sort}
use brazen.Base.Result.{Result, ok, err}
use brazen.Canonical.Json.{Json}
use brazen.Canonical.Error.{CanonicalError}
use brazen.Canonical.Event.{
  ContentKind, Delta, Event, error, opening, assistant, content_start, content_delta, content_stop,
  text_delta, thinking_delta, json_delta, image_delta, encrypted_reasoning_delta,
}
use brazen.Framing.Frame.{Frame}
use brazen.Protocol.State.{
  OpenBlock, DecodeState, Decode, Emit, pure, ◌>>=◌, ◌>>◌, emit, gets, modify, start_block,
  stop_block,
}
use brazen.Protocol.Access.{parse, text_of, u32_at, http_error, or_empty}
use Terminal.{completed, incomplete, stream_error}

-- The types of event that the dispatcher knows.
pub data Kind : Type 0 where
  created item_added part_added text_frag argument_frag thinking_frag refusal_frag : Kind
  item_done completion incompletion failure ignored : Kind

unfoldable pub kind_of : Bytes → Kind
kind_of ty =
    if bytes_eq ty (str "response.created") || bytes_eq ty (str "response.in_progress")
    then created
    else if bytes_eq ty (str "response.output_item.added")
    then item_added
    else if bytes_eq ty (str "response.content_part.added")
    then part_added
    else if bytes_eq ty (str "response.output_text.delta")
    then text_frag
    else if bytes_eq ty (str "response.function_call_arguments.delta")
    then argument_frag
    else if bytes_eq ty (str "response.reasoning_summary_text.delta")
        || bytes_eq ty (str "response.reasoning_text.delta")
    then thinking_frag
    else if bytes_eq ty (str "response.refusal.delta")
    then refusal_frag
    else if bytes_eq ty (str "response.output_item.done")
    then item_done
    else if bytes_eq ty (str "response.completed")
    then completion
    else if bytes_eq ty (str "response.incomplete")
    then incompletion
    else if bytes_eq ty (str "response.failed") || bytes_eq ty (str "response.error")
    then failure
    else ignored

abbrev same_key : ℕ × ℕ → ℕ × ℕ → Bool
same_key (a, b) (c, d) = a == c && b == d

-- `part_index.get(&key)`
unfoldable pub part_at : ℕ × ℕ → List ((ℕ × ℕ) × ℕ) → Option ℕ
part_at key [] = none
part_at key ((k, c) ∷ m) = let rest = part_at key m in if same_key k key then some c else rest

module _ {V : Type 0} where
  -- The block of a part, if it is open.
  abbrev pub if_open : Option ℕ → Dict (OpenBlock V) → Option ℕ
  if_open none opened = none
  if_open (some c) opened = if is_some (Dict.get c opened) then some c else none

  unfoldable pub claim : ℕ × ℕ → Option ℕ → Emit V ℕ
  claim key (some c) = pure c
  claim key none = do
    next ← gets (λ s. length s.part_index % 2 ^ 32)
    modify (λ s. record s { part_index = (key, next) ∷ s.part_index })
    pure next

  -- `canonical`: the index of a part, assigned at its first sight.
  unfoldable pub canonical : ℕ × ℕ → Emit V ℕ
  unfolding part_at
  canonical key = do found ← gets (λ s. part_at key s.part_index); claim key found

  unfoldable pub open_block : ℕ × ℕ → Option (ContentKind V) → Emit V (Unit {0})
  open_block key none = pure tt
  open_block key (some kind) = do index ← canonical key; start_block index kind

  unfoldable pub push_delta : Option ℕ → Delta V → Emit V (Unit {0})
  push_delta none frag = pure tt
  push_delta (some index) frag = emit (content_delta index frag)

  -- The blocks of an item that are still open.
  unfoldable pub open_parts : ℕ → List ((ℕ × ℕ) × ℕ) → Dict (OpenBlock V) → List ℕ
  open_parts item [] opened = []
  open_parts item (((o, p), c) ∷ m) opened =
      let rest = open_parts item m opened in
      if o == item && is_some (Dict.get c opened) then c ∷ rest else rest

  unfoldable pub push_encrypted : ℕ → Option Bytes → Emit V (Unit {0})
  push_encrypted index none = pure tt
  push_encrypted index (some e) = emit (content_delta index (encrypted_reasoning_delta e))

  unfoldable pub close_all : Option Bytes → List ℕ → Emit V (Unit {0})
  close_all enc [] = pure tt
  close_all enc (index ∷ rest) = do push_encrypted index enc; stop_block index; close_all enc rest

module _ (j : Json) where
  open j use {Value, at_key, as_str}

  unfoldable pub part_key : Value → ℕ × ℕ
  part_key v = (u32_at j v (str "output_index"), u32_at j v (str "content_index"))

  unfoldable pub push_start : Bool → Value → Emit Value (Unit {0})
  push_start true v = pure tt
  push_start false v = do
    modify (λ s. record s { started = true })
    emit (
        opening (as_str (at_key (at_key v (str "response")) (str "id")))
          (as_str (at_key (at_key v (str "response")) (str "model"))) assistant)

  unfoldable pub message_start : Value → Emit Value (Unit {0})
  message_start v = do started ← gets (λ s. s.started); push_start started v

  abbrev item_type : Value → Bytes
  item_type v = or_empty (as_str (at_key (at_key v (str "item")) (str "type")))

  unfoldable pub item_kind : Value → Option (ContentKind Value)
  item_kind v =
      let item = at_key v (str "item") in
      if bytes_eq (item_type v) (str "function_call")
      then some
          (ContentKind.tool_use (text_of j item (str "call_id")) (text_of j item (str "name")))
      else if bytes_eq (item_type v) (str "reasoning")
      then some (ContentKind.thinking (as_str (at_key item (str "id"))))
      else none

  unfoldable pub added : Value → Emit Value (Unit {0})
  added v = open_block (part_key v) (item_kind v)

  unfoldable pub part_kind : Value → Option (ContentKind Value)
  part_kind v =
      if bytes_eq (or_empty (as_str (at_key (at_key v (str "part")) (str "type"))))
        (str "output_text")
      then some ContentKind.text
      else none

  unfoldable pub part : Value → Emit Value (Unit {0})
  part v = open_block (part_key v) (part_kind v)

  unfoldable pub delta : Value → (Bytes → Delta Value) → Emit Value (Unit {0})
  delta v wrap = do
    found ← gets (λ s. if_open (part_at (part_key v) s.part_index) s.opened)
    push_delta found (wrap (text_of j v (str "delta")))

  unfoldable pub refuse : Value → Emit Value (Unit {0})
  refuse v = modify (λ s. record s { refusal = s.refusal ++ text_of j v (str "delta") })

  abbrev pub is_image : Value → Bool
  is_image v = bytes_eq (item_type v) (str "image_generation_call")

  unfoldable pub encrypted : Value → Option Bytes
  encrypted v =
      if bytes_eq (item_type v) (str "reasoning")
      then as_str (at_key (at_key v (str "item")) (str "encrypted_content"))
      else none

  unfoldable pub image_item : Value → Emit Value (Unit {0})
  image_item v = do
    index ← canonical (part_key v)
    emit (
        content_start index (
          ContentKind.image (
            str "image/"
            ++ get_or (as_str (at_key (at_key v (str "item")) (str "output_format"))) (str "png"))))
    emit (content_delta index (image_delta (text_of j (at_key v (str "item")) (str "result"))))
    emit (content_stop index)

  unfoldable pub close_item : Value → Emit Value (Unit {0})
  close_item v = do
    open_keys ←
        gets (λ s. sort (open_parts (u32_at j v (str "output_index")) s.part_index s.opened))
    close_all (encrypted v) open_keys

  unfoldable pub done : Value → Emit Value (Unit {0})
  done v = if is_image v then image_item v else close_item v

  unfoldable pub handle : Kind → Value → Emit Value (Unit {0})
  handle created v = message_start v
  handle item_added v = added v
  handle part_added v = part v
  handle text_frag v = delta v text_delta
  handle argument_frag v = delta v json_delta
  handle thinking_frag v = delta v thinking_delta
  handle refusal_frag v = refuse v
  handle item_done v = done v
  handle completion v = completed j v
  handle incompletion v = incomplete j v
  handle failure v = emit (error (stream_error j v))
  handle ignored v = pure tt

  abbrev pub type_of : Value → Bytes
  type_of v = or_empty (as_str (at_key v (str "type")))

  unfoldable pub event : Value → Emit Value (Unit {0})
  unfolding kind_of
  event v = handle (kind_of (type_of v)) v

  abbrev pub frame_data : Result (CanonicalError Value) Value → Decode Value
  frame_data (ok v) s = let (_, s', out) = event v s in (ok out, s')
  frame_data (err e) s = (err e, s)

  unfoldable pub decode : Frame → Decode Value
  unfolding parse
  decode frame s = elim frame.status [
    | some status ↦ (ok (error (http_error j frame.data' status) ∷ []), s)
    | none ↦ frame_data (parse j frame.data') s
  ]
