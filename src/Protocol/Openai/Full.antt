-- ===== src/Protocol/Openai/Full.antt =====
-- src/protocol/openai/decode/mod.rs: a complete body, replayed as one chunk of the stream. A panic is
-- `none`.
use brazen.Base.{
  ℕ, suc, true, List, [], ◌∷◌, ◌++◌, Option, none, some, Bytes, str, bytes_eq, ◌≡◌, refl, ap, ◌∙◌,
}
use brazen.Base.Assoc.{value_at}
use brazen.Base.Dict.{keys}
use brazen.Base.Result.{Result, ok, err}
use brazen.Canonical.Json.{Json, JsonLaws}
use brazen.Canonical.Error.{CanonicalError}
use brazen.Canonical.Event.{Event}
use brazen.Protocol.Access.{parse}
use brazen.Protocol.Calls.{items_of}
use brazen.Protocol.State.{DecodeState}
use brazen.Protocol.State.Track.{track}
use brazen.Protocol.Openai.{choice_of, chunk}
use brazen.Protocol.Openai.Finished.{chunk_finish}

module _ (j : Json) where
  open j use {Value, number, array, object, at_key, set_key, as_str, as_array}

  abbrev both : Option Value → Option (List Value) → Option (List Value)
  both (some call) (some calls) = some (call ∷ calls)
  both (some call) none = none
  both none calls = none

  -- The calls from a position on, each with its index.
  unfoldable pub with_indices : ℕ → List Value → Option (List Value)
  with_indices i [] = some []
  with_indices i (call ∷ calls) =
      both (set_key call (str "index") (number i)) (with_indices (suc i) calls)

  abbrev delta_of : Value → Option (List Value) → Option Value
  delta_of message none = none
  delta_of message (some calls) = some (
      object (
        (str "reasoning_content", at_key message (str "reasoning_content"))
        ∷ (str "content", at_key message (str "content"))
        ∷ (str "refusal", at_key message (str "refusal"))
        ∷ (str "tool_calls", array calls)
        ∷ []))

  unfoldable pub as_delta : Value → Option Value
  as_delta message =
      delta_of message (with_indices 0 (items_of (as_array (at_key message (str "tool_calls")))))

  unfoldable pub choice_with : Value → Value → Value
  choice_with v delta = object (
      (str "delta", delta)
      ∷ (str "finish_reason", at_key (choice_of j v) (str "finish_reason"))
      ∷ [])

  -- The chunk that stands for the body.
  unfoldable pub whole : Value → Value → Value
  whole v delta = object (
      (str "id", at_key v (str "id"))
      ∷ (str "model", at_key v (str "model"))
      ∷ (str "usage", at_key v (str "usage"))
      ∷ (str "choices", array (choice_with v delta ∷ []))
      ∷ [])

  abbrev pub Answer : Type 0
  Answer = Result (CanonicalError Value) (List (Event Value)) × DecodeState Value

  abbrev pub replay : Value → DecodeState Value → Option Value → Option Answer
  replay v s none = none
  replay v s (some delta) = let (_, s', out) = chunk j (whole v delta) s in some (ok out, s')

  abbrev pub full_data : Result (CanonicalError Value) Value → DecodeState Value → Option Answer
  full_data (ok v) s = replay v s (as_delta (at_key (choice_of j v) (str "message")))
  full_data (err e) s = some (err e, s)

  unfoldable pub decode_full : Bytes → DecodeState Value → Option Answer
  unfolding parse
  decode_full body s = full_data (parse j body) s

  choice_of-whole :
      (laws : JsonLaws j) (v delta : Value) → choice_of j (whole v delta) ≡ choice_with v delta
  unfolding whole value_at bytes_eq str
  choice_of-whole laws v delta =
      ap (λ u. j.at_index u 0) (laws.at_key-value_at _ (str "choices") _ refl)
      ∙ laws.at_index-array (choice_with v delta) []

  finish_reason-whole :
      (laws : JsonLaws j) (v delta : Value)
      → at_key (choice_of j (whole v delta)) (str "finish_reason")
        ≡ at_key (choice_of j v) (str "finish_reason")
  unfolding choice_with value_at bytes_eq str
  finish_reason-whole laws v delta =
      ap (λ u. at_key u (str "finish_reason")) (choice_of-whole laws v delta)
      ∙ laws.at_key-value_at _ (str "finish_reason") _ refl

  -- The answer for a complete body with a finish reason whose calls can be given an index.
  unfoldable pub Ends : DecodeState Value → Option Answer → Type 0
  Ends s (some (ok out, s')) =
      (s'.opened ≡ []) × (s'.terminated ≡ true) × (track (keys s.opened) out ≡ [])
  Ends s (some (err e, s')) = ⊥
  Ends s none = ⊥

  -- A complete body that parses and has a finish reason, and whose tool calls are all values that
  -- take an index, yields events and no error, in any state. The events stop every block that is
  -- open before them or that they open, none is left open, and the terminal marker is set.
  pub decode_full-Ends :
      (laws : JsonLaws j) (body : Bytes) (v delta : Value) (reason : Bytes) (s : DecodeState Value)
      → parse j body ≡ ok v
      → as_delta (at_key (choice_of j v) (str "message")) ≡ some delta
      → as_str (at_key (choice_of j v) (str "finish_reason")) ≡ some reason
      → Ends s (decode_full body s)
  unfolding decode_full Ends
  decode_full-Ends laws body v delta reason s p d h =
      rw (p, d, decode_full)
        (chunk_finish j (whole v delta) reason s (ap as_str (finish_reason-whole laws v delta) ∙ h))

  both-none : (call : Option Value) → both call none ≡ none
  both-none none = refl
  both-none (some call) = refl

  with_indices-string :
      (laws : JsonLaws j) (i : ℕ) (before : List Value) (t : Bytes) (after : List Value)
      → with_indices i (before ++ j.string t ∷ after) ≡ none
  unfolding with_indices
  with_indices-string laws i [] t after =
      ap (λ o. both o (with_indices (suc i) after)) (laws.set_key-string t _ _)
  with_indices-string laws i (call ∷ before) t after =
      ap (both (set_key call (str "index") (number i)))
        (with_indices-string laws (suc i) before t after)
      ∙ both-none _

  -- A complete body that parses, with a string anywhere among the tool calls of its first choice,
  -- makes the decoder panic, in any state: it returns neither events nor an error.
  pub decode_full-panics :
      (laws : JsonLaws j) (body : Bytes) (v : Value) (before : List Value) (t : Bytes)
      (after : List Value) (s : DecodeState Value)
      → parse j body ≡ ok v
      → as_array (at_key (at_key (choice_of j v) (str "message")) (str "tool_calls"))
        ≡ some (before ++ j.string t ∷ after)
      → decode_full body s ≡ none
  unfolding decode_full as_delta
  decode_full-panics laws body v before t after s p h =
      rw (p, decode_full, h, as_delta)
        (ap (λ o. replay v s (delta_of (at_key (choice_of j v) (str "message")) o))
          (with_indices-string laws 0 before t after))
