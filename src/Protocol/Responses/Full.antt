-- ===== src/Protocol/Responses/Full.antt =====
-- src/protocol/openai_responses/decode/full.rs: a complete body, replayed as the events of a stream.
use brazen.Base.{
  ℕ, suc, ◌%◌, ◌^◌, true, List, [], ◌∷◌, Bytes, str, bytes_eq, if◌then◌else◌, ◌≡◌, refl, ap, ◌∙◌,
  inl,
}
use brazen.Base.Result.{Result, ok, err}
use brazen.Canonical.Json.{Json, JsonLaws, has_key}
use brazen.Canonical.Error.{CanonicalError}
use brazen.Protocol.Access.{parse, text_of, or_empty}
use brazen.Protocol.Calls.{items_of}
use brazen.Protocol.Responses.{completion, kind_of, type_of, event}
use brazen.Protocol.Responses.Tracked.{event_ends}
use brazen.Protocol.State.{DecodeState, Decode, Emit, pure, ◌>>=◌, ◌>>◌}

module _ (j : Json) where
  open j use {Value, string, number, object, at_key, as_str, as_array}

  unfoldable pub created_event : Value → Value
  created_event response =
      object ((str "type", string (str "response.created")) ∷ (str "response", response) ∷ [])

  unfoldable pub completed_event : Value → Value
  completed_event response =
      object ((str "type", string (str "response.completed")) ∷ (str "response", response) ∷ [])

  unfoldable pub arg_delta : ℕ → Bytes → Bytes → Value
  arg_delta oi ty delta =
      object (
        (str "type", string ty)
        ∷ (str "output_index", number oi)
        ∷ (str "delta", string delta)
        ∷ [])

  -- `added` and `done` of an item.
  unfoldable pub item_event : Bytes → ℕ → Value → Value
  item_event ty oi item =
      object ((str "type", string ty) ∷ (str "output_index", number oi) ∷ (str "item", item) ∷ [])

  unfoldable pub explode_part : ℕ → ℕ → Value → Emit Value (Unit {0})
  explode_part oi ci part = do
    event j (
        object (
          (str "type", string (str "response.content_part.added"))
          ∷ (str "output_index", number oi)
          ∷ (str "content_index", number ci)
          ∷ (str "part", part)
          ∷ []))
    event j (
        object (
          (str "type", string (str "response.output_text.delta"))
          ∷ (str "output_index", number oi)
          ∷ (str "content_index", number ci)
          ∷ (str "delta", at_key part (str "text"))
          ∷ []))

  -- The parts from a position on; `as u32` wraps it.
  unfoldable pub explode_parts : ℕ → ℕ → List Value → Emit Value (Unit {0})
  explode_parts oi ci [] = pure tt
  explode_parts oi ci (part ∷ parts) =
      explode_part oi (ci % 2 ^ 32) part >> explode_parts oi (suc ci) parts

  unfoldable pub summaries : ℕ → List Value → Emit Value (Unit {0})
  summaries oi [] = pure tt
  summaries oi (s ∷ ss) =
      event j
        (arg_delta oi (str "response.reasoning_summary_text.delta") (text_of j s (str "text")))
      >> summaries oi ss

  unfoldable pub item_content : ℕ → Value → Emit Value (Unit {0})
  item_content oi item =
      let ty = or_empty (as_str (at_key item (str "type"))) in
      if bytes_eq ty (str "message")
      then explode_parts oi 0 (items_of (as_array (at_key item (str "content"))))
      else if bytes_eq ty (str "function_call")
      then event j (
          arg_delta oi (str "response.function_call_arguments.delta")
            (text_of j item (str "arguments")))
      else if bytes_eq ty (str "reasoning")
      then summaries oi (items_of (as_array (at_key item (str "summary"))))
      else pure tt

  unfoldable pub explode_item : ℕ → Value → Emit Value (Unit {0})
  explode_item oi item = do
    event j (item_event (str "response.output_item.added") oi item)
    item_content oi item
    event j (item_event (str "response.output_item.done") oi item)

  unfoldable pub explode_items : ℕ → List Value → Emit Value (Unit {0})
  explode_items oi [] = pure tt
  explode_items oi (item ∷ items) = explode_item (oi % 2 ^ 32) item >> explode_items (suc oi) items

  -- Everything in front of the completion.
  unfoldable pub replay : Value → Emit Value (Unit {0})
  replay response = do
    event j (created_event response)
    explode_items 0 (items_of (as_array (at_key response (str "output"))))

  unfoldable pub full : Value → Emit Value (Unit {0})
  full response = replay response >> event j (completed_event response)

  abbrev pub full_data : Result (CanonicalError Value) Value → Decode Value
  full_data (ok response) s = let (_, s', out) = full response s in (ok out, s')
  full_data (err e) s = (err e, s)

  unfoldable pub decode_full : Bytes → Decode Value
  unfolding parse
  decode_full body s = full_data (parse j body) s

  completed-kind :
      (laws : JsonLaws j) (response : Value)
      → kind_of (type_of j (completed_event response)) ≡ completion
  unfolding completed_event kind_of has_key bytes_eq str
  completed-kind laws response =
      ap (λ v. kind_of (or_empty (as_str v)))
        (laws.at_key-object (str "type") (string (str "response.completed"))
          ((str "response", response) ∷ []) refl)
      ∙ ap (λ s. kind_of (or_empty s)) (laws.as_str-string (str "response.completed"))

  -- A complete body that parses, whatever is in it and whatever the state, leaves no block open and
  -- sets the terminal marker.
  pub decode_full-ends :
      (laws : JsonLaws j) (body : Bytes) (response : Value) (s : DecodeState Value)
      → parse j body ≡ ok response
      → ((decode_full body s).1.opened ≡ []) × ((decode_full body s).1.terminated ≡ true)
  unfolding decode_full full ◌>>=◌ ◌>>◌
  decode_full-ends laws body response s h =
      rw (h, decode_full)
        (event_ends j (completed_event response) (replay response s).1
          (inl (completed-kind laws response)))
