-- ===== src/Protocol/Openai.antt =====
-- src/protocol/openai/decode/mod.rs: the OpenAI chat stream.
pub mod Errors
pub mod Blocks
pub mod Finished
pub mod Full
use brazen.Base.{
  ℕ, Bool, true, false, List, [], ◌∷◌, ◌++◌, Option, none, some, Bytes, str, bytes_eq,
  if◌then◌else◌,
}
use brazen.Base.Result.{Result, ok, err}
use brazen.Canonical.Json.{Json}
use brazen.Canonical.Error.{CanonicalError}
use brazen.Canonical.Event.{Event, error, usage, opening, assistant}
use brazen.Canonical.Usage.{Usage, no_usage, with_input_total, with_thinking}
use brazen.Framing.Frame.{Frame}
use brazen.Protocol.State.{DecodeState, Decode, Emit, pure, ◌>>=◌, ◌>>◌, emit, gets, modify}
use brazen.Protocol.Access.{parse, nonempty, http_error, as_u32}
use Errors.{stream_error}
use Blocks.{thinking, text, tool_call, finish}

module _ (j : Json) where
  open j use {Value, at_key, at_index, get, as_str, as_u64, as_array, is_object}

  abbrev counter : Option ℕ → Option ℕ
  counter none = none
  counter (some n) = some (as_u32 n)

  unfoldable pub usage_of : Value → Usage
  unfolding with_input_total with_thinking
  usage_of u =
      let served : Usage = record no_usage {
        input_tokens = counter (as_u64 (at_key u (str "prompt_tokens")));
        output_tokens = counter (as_u64 (at_key u (str "completion_tokens")));
        cache_read_tokens =
            counter
              (as_u64 (at_key (at_key u (str "prompt_tokens_details")) (str "cached_tokens")));
      } in
      with_thinking
        (counter
          (as_u64 (at_key (at_key u (str "completion_tokens_details")) (str "reasoning_tokens"))))
        true (with_input_total false served)

  unfoldable pub push_start : Bool → Value → Emit Value (Unit {0})
  push_start true v = pure tt
  push_start false v = do
    modify (λ s. record s { started = true })
    emit (opening (as_str (at_key v (str "id"))) (as_str (at_key v (str "model"))) assistant)

  -- The start event, once.
  unfoldable pub start : Value → Emit Value (Unit {0})
  start v = do started ← gets (λ s. s.started); push_start started v

  unfoldable pub push_refusal : Option Bytes → Emit Value (Unit {0})
  push_refusal none = pure tt
  push_refusal (some r) = modify (λ s. record s { refusal = s.refusal ++ r })

  unfoldable pub tool_calls : List Value → Emit Value (Unit {0})
  tool_calls [] = pure tt
  tool_calls (call ∷ calls) = tool_call j call >> tool_calls calls

  abbrev calls_of : Option (List Value) → List Value
  calls_of none = []
  calls_of (some calls) = calls

  unfoldable pub push_finish : Option Bytes → Emit Value (Unit {0})
  push_finish none = pure tt
  push_finish (some reason) = do finish j reason; modify (λ s. record s { terminated = true })

  unfoldable pub push_usage : Option Value → Emit Value (Unit {0})
  push_usage none = pure tt
  push_usage (some u) = if is_object u then emit (usage (usage_of u)) else pure tt

  abbrev pub choice_of : Value → Value
  choice_of v = at_index (at_key v (str "choices")) 0

  -- Everything in front of the finish.
  unfoldable pub content : Value → Emit Value (Unit {0})
  content v = do
    start v
    let delta = at_key (choice_of v) (str "delta")
    thinking j delta
    text j delta
    push_refusal (nonempty j (at_key delta (str "refusal")))
    tool_calls (calls_of (as_array (at_key delta (str "tool_calls"))))

  unfoldable pub chunk : Value → Emit Value (Unit {0})
  chunk v = do
    content v
    push_finish (as_str (at_key (choice_of v) (str "finish_reason")))
    push_usage (get v (str "usage"))

  -- A parsed frame.
  unfoldable pub frame_value : Value → Emit Value (Unit {0})
  frame_value v =
      if is_object (at_key v (str "error"))
      then emit (error (stream_error j (at_key v (str "error"))))
      else chunk v

  abbrev pub frame_data : Result (CanonicalError Value) Value → Decode Value
  frame_data (ok v) s = let (_, s', out) = frame_value v s in (ok out, s')
  frame_data (err e) s = (err e, s)

  unfoldable pub decode : Frame → Decode Value
  decode frame s = elim frame.status [
    | some status ↦ (ok (error (http_error j frame.data' status) ∷ []), s)
    | none ↦
        if bytes_eq frame.data' (str "[DONE]")
        then (ok [], record s { terminated = true })
        else frame_data (parse j frame.data') s
  ]
