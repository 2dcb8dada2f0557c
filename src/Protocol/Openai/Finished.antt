-- ===== src/Protocol/Openai/Finished.antt =====
-- src/protocol/openai/decode/: the events of a frame and the map of open blocks.
use brazen.Base.{
  ℕ, Bool, true, false, List, [], ◌∷◌, Option, none, some, Bytes, ◌≡◌, refl, str, sym, ap, ◌∙◌, inl,
  inr, arith, bytes_eq, Option-cases, Bool-cases,
}
use brazen.Base.Dict.{keys}
use brazen.Base.Result.{Result, ok, err}
use brazen.Canonical.Json.{Json}
use brazen.Canonical.Error.{CanonicalError}
use brazen.Framing.Frame.{Frame}
use brazen.Protocol.State.{DecodeState, flatten, pure, ◌>>=◌, ◌>>◌, emit, gets, modify}
use brazen.Protocol.State.Track.{
  track, Tracks, Tracks-pure, Tracks-gets, Tracks-bind, Tracks-then, Tracks-emit, Tracks-modify,
  Tracks-start_block, Tracks-if,
}
use brazen.Protocol.Access.{parse}
use brazen.Protocol.Synth.Drain.{drain-Tracks, open_text-Tracks, open_thinking-Tracks, drain_lem}
use brazen.Protocol.Openai.{
  push_start, start, push_refusal, tool_calls, push_finish, push_usage, choice_of, content, chunk,
  frame_value, frame_data, decode,
}
use brazen.Protocol.Openai.Blocks.{
  push_thinking, thinking, push_text, text, call_block, push_arguments, tool_call, finish,
}

module _ (j : Json) where
  open j use {Value, at_key, as_str, get, is_object}

  push_start-Tracks : (b : Bool) (v : Value) → Tracks (push_start j b v)
  unfolding push_start
  push_start-Tracks true v = Tracks-pure tt
  push_start-Tracks false v =
      Tracks-then _ _ (Tracks-modify _ (λ s. refl)) (Tracks-emit _ (λ ks. refl))

  start-Tracks : (v : Value) → Tracks (start j v)
  unfolding start
  start-Tracks v = Tracks-bind _ _ (Tracks-gets _) (λ b. push_start-Tracks b v)

  thinking-Tracks : (o : Option Bytes) → Tracks (push_thinking j o)
  unfolding push_thinking
  thinking-Tracks none = Tracks-pure tt
  thinking-Tracks (some t) = Tracks-bind _ _ open_thinking-Tracks (λ i. Tracks-emit _ (λ ks. refl))

  text-Tracks : (o : Option Bytes) → Tracks (push_text j o)
  unfolding push_text
  text-Tracks none = Tracks-pure tt
  text-Tracks (some t) = Tracks-bind _ _ open_text-Tracks (λ i. Tracks-emit _ (λ ks. refl))

  push_refusal-Tracks : (o : Option Bytes) → Tracks (push_refusal j o)
  unfolding push_refusal
  push_refusal-Tracks none = Tracks-pure tt
  push_refusal-Tracks (some r) = Tracks-modify _ (λ s. refl)

  call_block-Tracks : (call : Value) (t : ℕ) (o : Option ℕ) → Tracks (call_block j call t o)
  unfolding call_block
  call_block-Tracks call t (some c) = Tracks-pure c
  call_block-Tracks call t none = Tracks-bind _ _ (Tracks-gets _) (λ c.
      Tracks-then _ _ (Tracks-modify _ (λ s. refl))
        (Tracks-then _ _ (Tracks-start_block c _) (Tracks-pure c)))

  push_arguments-Tracks : (i : ℕ) (o : Option Bytes) → Tracks (push_arguments j i o)
  unfolding push_arguments
  push_arguments-Tracks i none = Tracks-pure tt
  push_arguments-Tracks i (some arg) = Tracks-emit _ (λ ks. refl)

  tool_call-Tracks : (call : Value) → Tracks (tool_call j call)
  unfolding tool_call
  tool_call-Tracks call =
      Tracks-bind _ _ (Tracks-gets _)
        (λ known. Tracks-bind _ _ (call_block-Tracks call _ known) (λ i. push_arguments-Tracks i _))

  tool_calls-Tracks : (calls : List Value) → Tracks (tool_calls j calls)
  unfolding tool_calls
  tool_calls-Tracks [] = Tracks-pure tt
  tool_calls-Tracks (call ∷ calls) =
      Tracks-then _ _ (tool_call-Tracks call) (tool_calls-Tracks calls)

  finish-Tracks : (reason : Bytes) → Tracks (finish j reason)
  unfolding finish
  finish-Tracks reason =
      Tracks-then _ _ drain-Tracks
        (Tracks-bind _ _ (Tracks-gets _) (λ said. Tracks-emit _ (λ ks. refl)))

  push_finish-Tracks : (o : Option Bytes) → Tracks (push_finish j o)
  unfolding push_finish
  push_finish-Tracks none = Tracks-pure tt
  push_finish-Tracks (some reason) =
      Tracks-then _ _ (finish-Tracks reason) (Tracks-modify _ (λ s. refl))

  push_usage-Tracks : (o : Option Value) → Tracks (push_usage j o)
  unfolding push_usage
  push_usage-Tracks none = Tracks-pure tt
  push_usage-Tracks (some u) =
      Tracks-if (is_object u) _ _ (λ _. Tracks-emit _ (λ ks. refl)) (λ _. Tracks-pure tt)

  content-Tracks : (v : Value) → Tracks (content j v)
  unfolding content thinking text
  content-Tracks v = Tracks-then _ _ (start-Tracks v) (
      Tracks-then _ _ (thinking-Tracks _) (
        Tracks-then _ _ (text-Tracks _)
          (Tracks-then _ _ (push_refusal-Tracks _) (tool_calls-Tracks _))))

  chunk-Tracks : (v : Value) → Tracks (chunk j v)
  unfolding chunk
  chunk-Tracks v =
      Tracks-then _ _ (content-Tracks v)
        (Tracks-then _ _ (push_finish-Tracks _) (push_usage-Tracks _))

  frame_value-Tracks : (v : Value) → Tracks (frame_value j v)
  unfolding frame_value
  frame_value-Tracks v =
      Tracks-if (is_object (at_key v (str "error"))) _ _ (λ _. Tracks-emit _ (λ ks. refl))
        (λ _. chunk-Tracks v)

  frame_data-track :
      (r : Result (CanonicalError Value) Value) (s : DecodeState Value)
      → keys (frame_data j r s).1.opened ≡ track (keys s.opened) (flatten (frame_data j r s).0)
  unfolding flatten
  frame_data-track (ok v) s = (frame_value-Tracks v).at s
  frame_data-track (err e) s = unfold track in refl

  -- Whatever the frame and the state, the decoder's map holds afterwards exactly the blocks that a
  -- consumer of the events sees open.
  pub decode-track :
      (frame : Frame) (s : DecodeState Value)
      → keys (decode j frame s).1.opened ≡ track (keys s.opened) (flatten (decode j frame s).0)
  unfolding decode parse
  decode-track frame s = elim (Option-cases frame.status) [
    | inr (status, e) ↦ rw (e, decode) (unfold track flatten in refl)
    | inl e ↦ elim (Bool-cases (bytes_eq frame.data' (str "[DONE]"))) [
      | inl d ↦ rw (e, d, decode) (unfold track flatten in refl)
      | inr d ↦ rw (e, d, decode) (frame_data-track (parse j frame.data') s)
    ]
  ]

  push_usage-state : (o : Option Value) (s : DecodeState Value) → (push_usage j o s).1 ≡ s
  unfolding push_usage emit pure
  push_usage-state none s = refl
  push_usage-state (some u) s = ground arith

  finish-closes :
      (reason : Bytes) (s : DecodeState Value)
      → ((push_finish j (some reason) s).1.opened ≡ [])
        × ((push_finish j (some reason) s).1.terminated ≡ true)
  unfolding push_finish finish ◌>>=◌ ◌>>◌ gets emit modify
  finish-closes reason s = ((drain_lem s).0, refl)

  -- A chunk with a finish reason, in any state, stops every block that is open when it comes or
  -- that it opens itself, leaves none open and sets the terminal marker.
  pub chunk_finish :
      (v : Value) (reason : Bytes) (s : DecodeState Value)
      → as_str (at_key (choice_of j v) (str "finish_reason")) ≡ some reason
      → ((chunk j v s).1.opened ≡ [])
        × ((chunk j v s).1.terminated ≡ true)
        × (track (keys s.opened) (chunk j v s).2 ≡ [])
  unfolding chunk ◌>>=◌ ◌>>◌ keys
  chunk_finish v reason s h =
      let s' = (content j v s).1 in
      let (shut, done) = finish-closes reason s' in
      let after : (chunk j v s).1 ≡ (push_finish j (some reason) s').1 =
        push_usage-state _ _ ∙ ap (λ o. (push_finish j o s').1) h in
      let none_open = ap (λ t. t.opened) after ∙ shut in
      (
        none_open,
        ap (λ t. t.terminated) after ∙ done,
        sym ((chunk-Tracks v).at s) ∙ ap keys none_open,
      )
