-- ===== src/Run/Stream.antt =====
-- src/run/events/stream.rs: the streaming 2xx path as a pull iterator. A body is the list of what
-- the transport gives, `none` for a read that failed.
pub mod Lazy
pub mod Ends
pub mod Closed
use brazen.Base.{
  ℕ, suc, zero, ◌-◌, ◌*◌, min, Bool, true, false, List, [], ◌∷◌, ◌++◌, Option, none, some, Bytes,
  str, length, take, if◌then◌else◌,
}
use brazen.Base.Dict.{keys, sort}
use brazen.Base.Result.{Result, ok, err}
use brazen.Base.Text.{trim}
use brazen.Canonical.Json.{Json}
use brazen.Canonical.Error.{CanonicalError, transport}
use brazen.Canonical.Event.{Event, error}
use brazen.Framing.Frame.{Frame, Framing}
use brazen.Framing.Sse
use brazen.Framing.Sse.{SseDecoder}
use brazen.Framing.Lines
use brazen.Framing.Lines.{NdjsonDecoder, identity_push}
use brazen.Framing.Utf8.{from_utf8_lossy}
use brazen.Protocol.State.{DecodeState, Decode, Protocol, flatten, initial, Emit}
use brazen.Protocol.Synth.{drain}

-- `Box<dyn Decoder>`; the framers never fail, so their frames come without a `Result`.
pub data Decoder : Type 0 where
  sse : SseDecoder → Decoder
  ndjson : NdjsonDecoder → Decoder
  identity : Decoder

-- `Framing::decoder`
unfoldable pub decoder : Framing → Decoder
decoder Framing.sse = sse Sse.new
decoder Framing.ndjson = ndjson Lines.new
decoder Framing.identity = identity

unfoldable pub push : Decoder → Bytes → List Frame × Decoder
push (sse d) chunk = let (frames, d') = Sse.push d chunk in (frames, sse d')
push (ndjson d) chunk = let (frames, d') = Lines.push d chunk in (frames, ndjson d')
push identity chunk = (identity_push chunk, identity)

unfoldable pub finish : Decoder → List Frame × Decoder
finish (sse d) = let (frames, d') = Sse.finish d in (frames, sse d')
finish (ndjson d) = let (frames, d') = Lines.finish d in (frames, ndjson d')
finish identity = ([], identity)

-- `PREMATURE_EOF_BODY_CAP`
abbrev premature_eof_body_cap : ℕ
premature_eof_body_cap = 8 * 1024

-- The fields of `StreamEvents` that frames go through.
pub record Core (V : Type 0) : Type 0 where
  pub decoder : Decoder
  pub state : DecodeState V
  pub saw_frame : Bool
  pub head : Bytes

module _ {V : Type 0} where
  unfoldable pub transport_err : Bytes → CanonicalError V
  transport_err message = record {
    kind = transport;
    message = message;
    provider_detail = none;
    retry_after_seconds = none;
  }

  unfoldable pub accumulate_head : Bytes → Core V → Core V
  accumulate_head chunk c = if c.saw_frame then c else record c {
    head = c.head ++ take (min (premature_eof_body_cap - length c.head) (length chunk)) chunk;
  }

  -- `close_open_blocks`: the same sorted drain as `synth::drain`.
  unfoldable pub close_open_blocks : Core V → List (Event V) × Core V
  close_open_blocks c = let (_, s, out) = drain c.state in (out, record c { state = s })

module _ (j : Json) (proto : Protocol j.Value) where
  open j use {Value, string, from_slice}

  -- `decode_into_pending`, with the events that it adds to `pending`.
  unfoldable pub decode_frame : Frame → Core Value → List (Event Value) × Core Value
  unfolding flatten
  decode_frame frame c =
      let (r, s) = proto.decode frame c.state in
      (flatten r, record c { state = s; saw_frame = true; head = [] })

  unfoldable pub decode_frames : List Frame → Core Value → List (Event Value) × Core Value
  decode_frames [] c = ([], c)
  decode_frames (frame ∷ frames) c =
      let (out, c') = decode_frame frame c in
      let (later, c'') = decode_frames frames c' in (out ++ later, c'')

  -- The trimmed text of a sample that is no JSON.
  unfoldable pub body_detail : Bytes → Option Value
  body_detail [] = none
  body_detail (b ∷ bytes) = elim (from_slice (b ∷ bytes)) [
    | ok v ↦ some v
    | err _ ↦ some (string (trim (from_utf8_lossy (b ∷ bytes))))
  ]

  unfoldable pub premature_eof_with_body : Bytes → CanonicalError Value
  unfolding body_detail transport_err
  premature_eof_with_body head = record (transport_err (str "premature upstream EOF")) {
    provider_detail = body_detail head;
  }

  unfoldable pub premature_eof : Core Value → Event Value
  premature_eof c =
      if c.saw_frame
      then error (transport_err (str "premature upstream EOF"))
      else error (premature_eof_with_body c.head)

  -- The branch of a chunk.
  unfoldable pub feed_chunk : Bytes → Core Value → List (Event Value) × Core Value
  feed_chunk chunk c =
      let c' = accumulate_head chunk c in
      let (frames, d) = push c'.decoder chunk in decode_frames frames (record c' { decoder = d })

  -- The branch of a failed read.
  unfoldable pub drop_stream : Core Value → List (Event Value) × Core Value
  drop_stream c =
      let (out, c') = close_open_blocks c in
      (out ++ error (transport_err (str "transport stream dropped")) ∷ [], c')

  -- The close of a stream whose terminal marker was not seen.
  unfoldable pub end_stream : Core Value → List (Event Value) × Core Value
  end_stream c =
      if c.state.terminated
      then ([], c)
      else (let (out, c') = close_open_blocks c in (out ++ premature_eof c' ∷ [], c'))

  -- The branch of `body_done`.
  unfoldable pub finish_body : Core Value → List (Event Value) × Core Value
  finish_body c =
      let (frames, d) = finish c.decoder in
      let (out, c') = decode_frames frames (record c { decoder = d }) in
      let (later, c'') = end_stream c' in (out ++ later, c'')

  pub record StreamEvents : Type 0 where
    pub core : Core Value
    pub body : List (Option Bytes)
    pub pending : List (Event Value)
    pub body_done : Bool
    pub finished : Bool

  -- What one round of the loop of `next` does: returns an event, returns `None`, or goes on.
  pub data Round : Type 0 where
    yields : Event Value → StreamEvents → Round
    stops : Round
    goes_on : StreamEvents → Round

  unfoldable pub new : List (Option Bytes) → StreamEvents
  unfolding decoder
  new body = record {
    core = record {
      decoder = decoder proto.framing;
      state = initial;
      saw_frame = false;
      head = [];
    };
    body = body;
    pending = [];
    body_done = false;
    finished = false;
  }

  -- The `match` on the next item of the body.
  unfoldable pub pull : List (Option Bytes) → StreamEvents → Round
  pull [] s = goes_on (record s { body_done = true })
  pull (some chunk ∷ rest) s =
      let (out, c) = feed_chunk chunk s.core in
      goes_on (record s { core = c; body = rest; pending = s.pending ++ out })
  pull (none ∷ rest) s =
      let (out, c) = drop_stream s.core in
      goes_on (record s { core = c; body = rest; pending = s.pending ++ out; finished = true })

  -- A round with nothing pending.
  unfoldable pub advance : StreamEvents → Round
  unfolding pull
  advance s =
      if s.finished
      then stops
      else if s.body_done
      then (let (out, c) = finish_body s.core in
          goes_on (record s { core = c; pending = s.pending ++ out; finished = true }))
      else pull s.body s

  unfoldable pub round_of : List (Event Value) → StreamEvents → Round
  unfolding advance
  round_of [] s = advance s
  round_of (ev ∷ rest) s = yields ev (record s { pending = rest })

  abbrev pub round : StreamEvents → Round
  round s = round_of s.pending s
