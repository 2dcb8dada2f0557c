-- ===== src/Protocol/Ollama/Finished.antt =====
-- src/protocol/ollama_chat/decode/: the events of a line and the map of open blocks.
use brazen.Base.{
  Bool, true, false, List, [], ◌∷◌, Option, none, some, Bytes, ◌≡◌, refl, str, sym, ap, ◌∙◌, inl,
  inr, Option-cases,
}
use brazen.Base.Dict.{keys}
use brazen.Base.Result.{Result, ok, err}
use brazen.Canonical.Json.{Json}
use brazen.Canonical.Error.{CanonicalError}
use brazen.Framing.Frame.{Frame}
use brazen.Protocol.State.{DecodeState, flatten, ◌>>=◌, ◌>>◌, emit, gets, modify}
use brazen.Protocol.State.Track.{
  track, Tracks, Tracks-pure, Tracks-gets, Tracks-bind, Tracks-then, Tracks-emit, Tracks-modify,
  Tracks-start_block,
}
use brazen.Protocol.Access.{parse}
use brazen.Protocol.Synth.Drain.{drain-Tracks, open_text-Tracks, open_thinking-Tracks, drain_lem}
use brazen.Protocol.Ollama.{
  push_thinking, thinking, push_text, text, tool_call, tool_calls, finish_line, push_start, is_done,
  content, push_finish, line, frame_value, frame_data, decode,
}

module _ (j : Json) where
  open j use {Value, at_key, as_str, as_bool}

  push_start-Tracks : (b : Bool) (v : Value) → Tracks (push_start j b v)
  unfolding push_start
  push_start-Tracks true v = Tracks-pure tt
  push_start-Tracks false v =
      Tracks-then _ _ (Tracks-modify _ (λ s. refl)) (Tracks-emit _ (λ ks. refl))

  thinking-Tracks : (o : Option Bytes) → Tracks (push_thinking j o)
  unfolding push_thinking
  thinking-Tracks none = Tracks-pure tt
  thinking-Tracks (some t) = Tracks-bind _ _ open_thinking-Tracks (λ i. Tracks-emit _ (λ ks. refl))

  text-Tracks : (o : Option Bytes) → Tracks (push_text j o)
  unfolding push_text
  text-Tracks none = Tracks-pure tt
  text-Tracks (some t) = Tracks-bind _ _ open_text-Tracks (λ i. Tracks-emit _ (λ ks. refl))

  tool_call-Tracks : (call : Value) → Tracks (tool_call j call)
  unfolding tool_call
  tool_call-Tracks call =
      Tracks-bind _ _ (Tracks-gets _)
        (λ i. Tracks-then _ _ (Tracks-start_block i _) (Tracks-emit _ (λ ks. refl)))

  tool_calls-Tracks : (calls : List Value) → Tracks (tool_calls j calls)
  unfolding tool_calls
  tool_calls-Tracks [] = Tracks-pure tt
  tool_calls-Tracks (call ∷ calls) =
      Tracks-then _ _ (tool_call-Tracks call) (tool_calls-Tracks calls)

  push_finish-Tracks : (b : Bool) (v : Value) → Tracks (push_finish j b v)
  unfolding push_finish finish_line
  push_finish-Tracks false v = Tracks-pure tt
  push_finish-Tracks true v = Tracks-bind _ _ (Tracks-gets _) (λ reason.
      Tracks-then _ _ drain-Tracks (
        Tracks-then _ _ (Tracks-emit _ (λ ks. refl))
          (Tracks-then _ _ (Tracks-emit _ (λ ks. refl)) (Tracks-modify _ (λ s. refl)))))

  content-Tracks : (v : Value) → Tracks (content j v)
  unfolding content thinking text
  content-Tracks v = Tracks-bind _ _ (Tracks-gets _) (λ started.
      Tracks-then _ _ (push_start-Tracks started v) (
        Tracks-then _ _ (thinking-Tracks _)
          (Tracks-then _ _ (text-Tracks _) (tool_calls-Tracks _))))

  line-Tracks : (v : Value) → Tracks (line j v)
  unfolding line
  line-Tracks v = Tracks-then _ _ (content-Tracks v) (push_finish-Tracks _ v)

  frame_value-track :
      (o : Option Bytes) (v : Value) (s : DecodeState Value)
      → keys (frame_value j o v s).1.opened
        ≡ track (keys s.opened) (flatten (frame_value j o v s).0)
  unfolding flatten
  frame_value-track (some message) v s = unfold track in refl
  frame_value-track none v s = (line-Tracks v).at s

  frame_data-track :
      (r : Result (CanonicalError Value) Value) (s : DecodeState Value)
      → keys (frame_data j r s).1.opened ≡ track (keys s.opened) (flatten (frame_data j r s).0)
  frame_data-track (ok v) s = frame_value-track (as_str (at_key v (str "error"))) v s
  frame_data-track (err e) s = unfold track flatten in refl

  -- Whatever the line and the state, the decoder's map holds afterwards exactly the blocks that a
  -- consumer of the events sees open.
  pub decode-tracked :
      (frame : Frame) (s : DecodeState Value)
      → keys (decode j frame s).1.opened ≡ track (keys s.opened) (flatten (decode j frame s).0)
  unfolding decode parse
  decode-tracked frame s = elim (Option-cases frame.status) [
    | inr (status, e) ↦ rw (e, decode) (unfold track flatten in refl)
    | inl e ↦ rw (e, decode) (frame_data-track (parse j frame.data') s)
  ]

  finish-closes :
      (v : Value) (s : DecodeState Value)
      → ((push_finish j true v s).1.opened ≡ []) × ((push_finish j true v s).1.terminated ≡ true)
  unfolding push_finish finish_line ◌>>=◌ ◌>>◌ gets emit modify
  finish-closes v s = ((drain_lem s).0, refl)

  -- A line with `"done": true`, in any state, stops every block that is open when it comes or that
  -- it opens itself, leaves none open and sets the terminal marker.
  pub line_done :
      (v : Value) (s : DecodeState Value)
      → as_bool (at_key v (str "done")) ≡ some true
      → ((line j v s).1.opened ≡ [])
        × ((line j v s).1.terminated ≡ true)
        × (track (keys s.opened) (line j v s).2 ≡ [])
  unfolding line ◌>>=◌ ◌>>◌ keys
  line_done v s h =
      let s' = (content j v s).1 in
      let (shut, done) = finish-closes v s' in
      let after : (line j v s).1 ≡ (push_finish j true v s').1 =
        ap (λ o. (push_finish j (is_done j o) v s').1) h in
      let none_open = ap (λ t. t.opened) after ∙ shut in
      (
        none_open,
        ap (λ t. t.terminated) after ∙ done,
        sym ((line-Tracks v).at s) ∙ ap keys none_open,
      )
