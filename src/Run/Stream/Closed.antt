-- ===== src/Run/Stream/Closed.antt =====
-- src/run/events/stream.rs: the end of a stream that breaks off.
use brazen.Base.{
  ℕ, true, false, List, [], ◌∷◌, ◌++◌, Option, none, some, Bytes, ◌≡◌, refl, sym, arith, ap, ◌∙◌,
  ◌⊎◌, inl, inr, append_assoc, Bool-cases,
}
use brazen.Base.Dict.{keys}
use brazen.Canonical.Json.{Json}
use brazen.Canonical.Error.{CanonicalError, transport}
use brazen.Canonical.Event.{Event, error}
use brazen.Framing.Frame.{Frame}
use brazen.Protocol.State.{DecodeState, Protocol, flatten}
use brazen.Protocol.State.Track.{track, track-append}
use brazen.Protocol.Synth.{drain}
use brazen.Protocol.Synth.Drain.{drain-Tracks, drain_lem}
use brazen.Run.Stream.{
  Core, transport_err, accumulate_head, close_open_blocks, decode_frame, decode_frames, push,
  finish, feed_chunk, drop_stream, end_stream, finish_body, new,
}
use brazen.Run.Stream.Lazy.{collect}
use brazen.Run.Stream.Ends.{
  has_failed_read, premature_eof-transport, end_stream_done, end_stream_open,
}

module _ {V : Type 0} where
  -- From the open blocks `ks` on, the events stop every block and end in a transport error.
  pub record Closes (ks : List ℕ) (evs : List (Event V)) : Type 0 where
    pub closed : track ks evs ≡ []
    pub before : List (Event V)
    pub last : CanonicalError V
    pub ends : evs ≡ before ++ error last ∷ []
    pub kind : last.kind ≡ transport

  Closes-append :
      {ks ks' : List ℕ} (xs : List (Event V)) {ys : List (Event V)}
      → ks' ≡ track ks xs
      → Closes ks' ys
      → Closes ks (xs ++ ys)
  Closes-append {ks} xs {ys} e h = record {
    closed = track-append ks xs ys ∙ ap (λ k. track k ys) (sym e) ∙ h.closed;
    before = xs ++ h.before;
    last = h.last;
    ends = ap (λ zs. xs ++ zs) h.ends ∙ sym (append_assoc xs h.before (error h.last ∷ []));
    kind = h.kind;
  }

  Closes-error :
      {ks : List ℕ} (xs : List (Event V)) (e : CanonicalError V)
      → track ks xs ≡ []
      → e.kind ≡ transport
      → Closes ks (xs ++ error e ∷ [])
  unfolding track
  Closes-error {ks} xs e h k = record {
    closed = track-append ks xs (error e ∷ []) ∙ h;
    before = xs;
    last = e;
    ends = refl;
    kind = k;
  }

  track-drain : (s : DecodeState V) → track (keys s.opened) (drain s).2 ≡ []
  unfolding keys
  track-drain s = sym (drain-Tracks.at s) ∙ ap keys (drain_lem s).0

  close_open_blocks-Closes :
      (c : Core V) (e : CanonicalError V)
      → e.kind ≡ transport
      → Closes (keys c.state.opened) ((close_open_blocks c).0 ++ error e ∷ [])
  unfolding close_open_blocks
  close_open_blocks-Closes c e k = Closes-error (drain c.state).2 e (track-drain c.state) k

  accumulate_head-state : (chunk : Bytes) (c : Core V) → (accumulate_head chunk c).state ≡ c.state
  unfolding accumulate_head
  accumulate_head-state chunk c = ground arith

module _ (j : Json) (proto : Protocol j.Value)
    (decode_track : (frame : Frame) (s : DecodeState j.Value)
      → keys (proto.decode frame s).1.opened
        ≡ track (keys s.opened) (flatten (proto.decode frame s).0)) where
  open j use {Value}

  decode_frames-track :
      (frames : List Frame) (c : Core Value)
      → keys (decode_frames j proto frames c).1.state.opened
        ≡ track (keys c.state.opened) (decode_frames j proto frames c).0
  unfolding decode_frames decode_frame
  decode_frames-track [] c = unfold track in refl
  decode_frames-track (frame ∷ frames) c =
      let (out, c') = decode_frame j proto frame c in
      decode_frames-track frames c'
      ∙ ap (λ ks. track ks (decode_frames j proto frames c').0) (decode_track frame c.state)
      ∙ sym (track-append (keys c.state.opened) out (decode_frames j proto frames c').0)

  feed_chunk-track :
      (chunk : Bytes) (c : Core Value)
      → keys (feed_chunk j proto chunk c).1.state.opened
        ≡ track (keys c.state.opened) (feed_chunk j proto chunk c).0
  unfolding feed_chunk
  feed_chunk-track chunk c =
      let c' = accumulate_head chunk c in
      let (frames, d) = push c'.decoder chunk in
      decode_frames-track frames (record c' { decoder = d })
      ∙ ap (λ s. track (keys s.opened) (feed_chunk j proto chunk c).0)
          (accumulate_head-state chunk c)

  drop_stream-Closes : (c : Core Value) → Closes (keys c.state.opened) (drop_stream j proto c).0
  unfolding drop_stream transport_err
  drop_stream-Closes c = close_open_blocks-Closes c _ refl

  end_stream-Closes :
      (c : Core Value)
      → (end_stream j proto c).1.state.terminated ≡ false
      → Closes (keys c.state.opened) (end_stream j proto c).0
  end_stream-Closes c open' = elim (Bool-cases c.state.terminated) [
    | inl e ↦ let stays = ap (λ r. r.1.state.terminated) (end_stream_done j proto c e) in cc
    | inr e ↦
        let (err, is_error, k) = premature_eof-transport j proto (close_open_blocks c).1 in
        let ends =
          end_stream_open j proto c e ∙ ap (λ ev. (close_open_blocks c).0 ++ ev ∷ []) is_error in
        rw ends (close_open_blocks-Closes c err k)
  ]

  finish_body-Closes :
      (c : Core Value)
      → (finish_body j proto c).1.state.terminated ≡ false
      → Closes (keys c.state.opened) (finish_body j proto c).0
  unfolding finish_body
  finish_body-Closes c open' =
      let (frames, d) = finish c.decoder in
      let c' = record c { decoder = d } in
      Closes-append _ (decode_frames-track frames c') (end_stream-Closes _ open')

  collect-Closes :
      (body : List (Option Bytes)) (c : Core Value)
      → (has_failed_read body ≡ true) ⊎ ((collect j proto body c).1.state.terminated ≡ false)
      → Closes (keys c.state.opened) (collect j proto body c).0
  unfolding collect has_failed_read
  collect-Closes [] c (inl h) = cc
  collect-Closes [] c (inr h) = finish_body-Closes c h
  collect-Closes (none ∷ rest) c h = drop_stream-Closes c
  collect-Closes (some chunk ∷ rest) c h =
      Closes-append _ (feed_chunk-track chunk c)
        (collect-Closes rest (feed_chunk j proto chunk c).1 h)

  -- With a decoder whose map holds, after every frame, the blocks that its events leave open: a
  -- stream whose body breaks off in a failed read, or ends before the decoder has seen the terminal
  -- marker, stops every block it started, and its last event is a transport error.
  pub new-Closes :
      (body : List (Option Bytes))
      → (has_failed_read body ≡ true)
        ⊎ ((collect j proto body (new j proto body).core).1.state.terminated ≡ false)
      → Closes [] (collect j proto body (new j proto body).core).0
  unfolding new keys
  new-Closes body h = collect-Closes body (new j proto body).core h
