-- ===== src/Protocol/Google/Finished.antt =====
-- src/protocol/google_genai/decode/: the events of a chunk and the map of open blocks.
use brazen.Base.{
  ℕ, Bool, true, false, List, [], ◌∷◌, Option, none, some, Bytes, ◌≡◌, refl, str, sym, ap, ◌∙◌, inl,
  inr, Option-cases,
}
use brazen.Base.Dict.{keys}
use brazen.Base.Result.{Result, ok, err}
use brazen.Canonical.Json.{Json}
use brazen.Canonical.Error.{CanonicalError}
use brazen.Canonical.Event.{FinishReason}
use brazen.Framing.Frame.{Frame}
use brazen.Protocol.State.{DecodeState, flatten, pure, ◌>>=◌, ◌>>◌, emit, gets, modify}
use brazen.Protocol.State.Track.{
  track, Tracks, Tracks-pure, Tracks-gets, Tracks-bind, Tracks-then, Tracks-emit, Tracks-modify,
  Tracks-start_block, Tracks-if,
}
use brazen.Protocol.Access.{parse}
use brazen.Protocol.Synth.Drain.{drain-Tracks, open_text-Tracks, open_thinking-Tracks, drain_lem}
use brazen.Protocol.Google.{
  push_fragment, push_signature, push_call, push_image, part_events, parts, push_usage, metadata,
  terminate, push_start, candidate, content, push_end, chunk, frame_value, frame_data, decode_frame,
}

module _ (j : Json) where
  open j use {Value, at_key, as_str, is_object}

  fragment-Tracks : (b : Bool) (o : Option Bytes) → Tracks (push_fragment j b o)
  unfolding push_fragment
  fragment-Tracks b none = Tracks-pure tt
  fragment-Tracks true (some t) =
      Tracks-bind _ _ open_thinking-Tracks (λ i. Tracks-emit _ (λ ks. refl))
  fragment-Tracks false (some t) =
      Tracks-bind _ _ open_text-Tracks (λ i. Tracks-emit _ (λ ks. refl))

  signature-Tracks : (i : ℕ) (o : Option Bytes) → Tracks (push_signature j i o)
  unfolding push_signature
  signature-Tracks i none = Tracks-pure tt
  signature-Tracks i (some sig) = Tracks-emit _ (λ ks. refl)

  call-Tracks : (part : Value) (o : Option Value) → Tracks (push_call j part o)
  unfolding push_call
  call-Tracks part none = Tracks-pure tt
  call-Tracks part (some call) = Tracks-bind _ _ (Tracks-gets _) (λ i.
      Tracks-then _ _ (Tracks-start_block i _)
        (Tracks-then _ _ (Tracks-emit _ (λ ks. refl)) (signature-Tracks i _)))

  image-Tracks : (o : Option Value) → Tracks (push_image j o)
  unfolding push_image
  image-Tracks none = Tracks-pure tt
  image-Tracks (some img) =
      Tracks-bind _ _ (Tracks-gets _)
        (λ i. Tracks-then _ _ (Tracks-start_block i _) (Tracks-emit _ (λ ks. refl)))

  parts-Tracks : (ps : List Value) → Tracks (parts j ps)
  unfolding parts part_events
  parts-Tracks [] = Tracks-pure tt
  parts-Tracks (part ∷ rest) =
      Tracks-then _ _
        (Tracks-then _ _ (fragment-Tracks _ _)
          (Tracks-then _ _ (call-Tracks part _) (image-Tracks _)))
        (parts-Tracks rest)

  usage-Tracks : (o : Option Value) → Tracks (push_usage j o)
  unfolding push_usage
  usage-Tracks none = Tracks-pure tt
  usage-Tracks (some u) = Tracks-emit _ (λ ks. refl)

  terminate-Tracks : (reason : FinishReason) (v : Value) → Tracks (terminate j reason v)
  unfolding terminate
  terminate-Tracks reason v = Tracks-then _ _ drain-Tracks (
      Tracks-then _ _ (usage-Tracks _)
        (Tracks-then _ _ (Tracks-emit _ (λ ks. refl)) (Tracks-modify _ (λ s. refl))))

  push_start-Tracks : (b : Bool) (v : Value) → Tracks (push_start j b v)
  unfolding push_start
  push_start-Tracks true v = Tracks-pure tt
  push_start-Tracks false v =
      Tracks-then _ _ (Tracks-modify _ (λ s. refl)) (Tracks-emit _ (λ ks. refl))

  content-Tracks : (v : Value) → Tracks (content j v)
  unfolding content
  content-Tracks v =
      Tracks-bind _ _ (Tracks-gets _)
        (λ started. Tracks-then _ _ (push_start-Tracks started v) (parts-Tracks _))

  push_usage-state : (o : Option Value) (s : DecodeState Value) → (push_usage j o s).1 ≡ s
  unfolding push_usage emit pure
  push_usage-state none s = refl
  push_usage-state (some u) s = refl

  terminate-closes :
      (reason : FinishReason) (v : Value) (s : DecodeState Value)
      → ((terminate j reason v s).1.opened ≡ []) × ((terminate j reason v s).1.terminated ≡ true)
  unfolding terminate ◌>>=◌ ◌>>◌ emit modify
  terminate-closes reason v s =
      (ap (λ t. t.opened) (push_usage-state (metadata j v) _) ∙ (drain_lem s).0, refl)

module _ (j : Json) (to_lowercase : Bytes → Bytes) where
  open j use {Value, at_key, as_str, is_object}

  push_end-Tracks :
      (o blocked : Option Bytes) (v : Value) → Tracks (push_end j to_lowercase o blocked v)
  unfolding push_end
  push_end-Tracks (some reason) blocked v =
      Tracks-bind _ _ (Tracks-gets _) (λ why. terminate-Tracks j why v)
  push_end-Tracks none (some reason) v = terminate-Tracks j _ v
  push_end-Tracks none none v = usage-Tracks j _

  chunk-Tracks : (v : Value) → Tracks (chunk j to_lowercase v)
  unfolding chunk
  chunk-Tracks v = Tracks-then _ _ (content-Tracks j v) (push_end-Tracks _ _ v)

  frame_value-Tracks : (v : Value) → Tracks (frame_value j to_lowercase v)
  unfolding frame_value
  frame_value-Tracks v =
      Tracks-if (is_object (at_key v (str "error"))) _ _ (λ _. Tracks-emit _ (λ ks. refl))
        (λ _. chunk-Tracks v)

  frame_data-track :
      (unwrap : Value → Value) (r : Result (CanonicalError Value) Value) (s : DecodeState Value)
      → keys (frame_data j to_lowercase (frame_value j to_lowercase) unwrap r s).1.opened
        ≡ track
            (keys s.opened)
            (flatten (frame_data j to_lowercase (frame_value j to_lowercase) unwrap r s).0)
  unfolding flatten
  frame_data-track unwrap (ok v) s = (frame_value-Tracks (unwrap v)).at s
  frame_data-track unwrap (err e) s = unfold track in refl

  -- Whatever the frame, its envelope and the state, the decoder's map holds afterwards exactly the
  -- blocks that a consumer of the events sees open.
  pub decode_frame-track :
      (unwrap : Value → Value) (frame : Frame) (s : DecodeState Value)
      → keys (decode_frame j to_lowercase unwrap frame s).1.opened
        ≡ track (keys s.opened) (flatten (decode_frame j to_lowercase unwrap frame s).0)
  unfolding decode_frame parse
  decode_frame-track unwrap frame s = elim (Option-cases frame.status) [
    | inr (status, e) ↦ rw (e, decode_frame) (unfold track flatten in refl)
    | inl e ↦ rw (e, decode_frame) (frame_data-track unwrap (parse j frame.data') s)
  ]

  -- A chunk ends the message when it names a finish reason or says why the prompt is blocked.
  abbrev pub Ends : Option Bytes → Option Bytes → Type 0
  Ends (some reason) blocked = Unit
  Ends none (some reason) = Unit
  Ends none none = ⊥

  push_end-closes :
      (o blocked : Option Bytes) (v : Value) (s : DecodeState Value)
      → Ends o blocked
      → ((push_end j to_lowercase o blocked v s).1.opened ≡ [])
        × ((push_end j to_lowercase o blocked v s).1.terminated ≡ true)
  unfolding push_end ◌>>=◌ gets
  push_end-closes (some reason) blocked v s h = terminate-closes j _ v s
  push_end-closes none (some reason) v s h = terminate-closes j _ v s
  push_end-closes none none v s h = absurd h

  -- A chunk that names a finish reason, or that says why the prompt is blocked, in any state stops
  -- every block that is open when it comes or that it opens itself, leaves none open and sets the
  -- terminal marker.
  pub chunk-Ends :
      (v : Value) (s : DecodeState Value)
      → Ends
          (as_str (at_key (candidate j v) (str "finishReason")))
          (as_str (at_key (at_key v (str "promptFeedback")) (str "blockReason")))
      → ((chunk j to_lowercase v s).1.opened ≡ [])
        × ((chunk j to_lowercase v s).1.terminated ≡ true)
        × (track (keys s.opened) (chunk j to_lowercase v s).2 ≡ [])
  unfolding chunk ◌>>=◌ ◌>>◌ keys
  chunk-Ends v s h =
      let (shut, done) = push_end-closes _ _ v (content j v s).1 h in
      (shut, done, sym ((chunk-Tracks v).at s) ∙ ap keys shut)
