-- ===== src/Run/Drive.antt =====
-- src/run/drive.rs, `stream_raw` of src/run/raw.rs and `pump` of src/pipeline/sink.rs: the events
-- or the bytes of a response go to the sink, and the exit code is computed.
pub mod Fold
pub mod Exits
pub mod Broken
use brazen.Base.{
  ℕ, Bool, true, false, List, [], ◌∷◌, ◌++◌, Option, none, some, Bytes, str, map, if◌then◌else◌,
}
use brazen.Base.Result.{Result, ok, err}
use brazen.Canonical.Json.{Json}
use brazen.Canonical.Error.{CanonicalError, IoError, from_io, code, exit_code, exit_from_status}
use brazen.Canonical.Usage.{Usage, fold_thinking}
use brazen.Canonical.Event.{Event, usage, error, raw, end}
use brazen.Framing.Frame.{Frame, Framing, into_bytes}
use brazen.Protocol.State.{Protocol}
use brazen.Run.Stream.{transport_err, Decoder, decoder, push}
use brazen.Run.Response.{TransportResponse, response_events}

-- The `Sink` trait: a state and what `write` does, `some` for an error.
pub record Sink (V : Type 0) : Type 1 where
  pub State : Type 0
  pub write : Event V → State → Option IoError × State

-- The code to leave with.
abbrev pub exit_of : Result ℕ ℕ → ℕ
exit_of (ok exit) = exit
exit_of (err c) = c

-- `window.or(…)`
abbrev pub or_context : Option ℕ → Option ℕ → Option ℕ
or_context none other = other
or_context (some n) other = some n

module _ {V : Type 0} where
  -- The exit code that an event sets.
  unfoldable pub event_exit : Event V → ℕ → ℕ
  unfolding exit_code
  event_exit (error e) exit = exit_code e.kind
  event_exit ev exit = exit

  unfoldable pub stamp_usage : Option ℕ → Bool → Event V → Event V
  unfolding fold_thinking
  stamp_usage window fold (usage u) =
      let stamped = record u { context_window = or_context window u.context_window } in
      usage (if fold then fold_thinking stamped else stamped)
  stamp_usage window fold ev = ev

module _ {V : Type 0} (sink : Sink V) where
  open sink use {State, write}

  -- The loop of `pump`, with the exit code so far.
  unfoldable pub pump_from : ℕ → List (Event V) → State → ℕ × State
  unfolding event_exit from_io code
  pump_from exit [] s = (exit, s)
  pump_from exit (ev ∷ evs) s =
      let (failed, s') = write ev s in
      let rest = pump_from (event_exit ev exit) evs s' in
      elim failed [ none ↦ rest | some io ↦ (code (from_io io), s') ]

  unfoldable pub pump : List (Event V) → State → ℕ × State
  unfolding pump_from
  pump events s = pump_from 0 events s

  -- What `write_event` answers: the code to leave with, or the exit code so far, and the state.
  unfoldable pub write_event : Event V → ℕ → State → Result ℕ ℕ × State
  unfolding event_exit from_io code
  write_event ev exit s =
      let (failed, s') = write ev s in
      (elim failed [ none ↦ ok (event_exit ev exit) | some io ↦ err (code (from_io io)) ], s')

  -- `and_then` on what came so far.
  unfoldable pub then_write : Event V → Result ℕ ℕ × State → Result ℕ ℕ × State
  unfolding write_event
  then_write ev (err c, s) = (err c, s)
  then_write ev (ok exit, s) = write_event ev exit s

  unfoldable pub fail_inband : CanonicalError V → State → ℕ × State
  unfolding then_write exit_code
  fail_inband e s =
      let (r, s') = then_write end (write_event (error e) (exit_code e.kind) s) in (exit_of r, s')

  unfoldable pub write_frames : List Frame → Result ℕ ℕ × State → Result ℕ ℕ × State
  unfolding then_write into_bytes
  write_frames [] m = m
  write_frames (frame ∷ frames) m = write_frames frames (then_write (raw (into_bytes frame)) m)

  -- The loop of `stream_raw`; what has failed stays as it is.
  unfoldable pub write_body :
      List (Option Bytes) → Decoder → Result ℕ ℕ × State → Result ℕ ℕ × State
  unfolding write_frames push transport_err
  write_body [] framer m = m
  write_body (none ∷ rest) framer m =
      then_write (error (transport_err (str "transport stream dropped"))) m
  write_body (some chunk ∷ rest) framer m =
      let (frames, framer') = push framer chunk in write_body rest framer' (write_frames frames m)

  unfoldable pub stream_raw : TransportResponse → State → ℕ × State
  unfolding write_body exit_from_status decoder
  stream_raw resp s =
      let (r, s') =
        then_write end (
          write_body resp.body (decoder Framing.identity) (ok (exit_from_status resp.status), s)) in
      (exit_of r, s')

module _ (j : Json) where
  open j use {Value}

  pub record Sent : Type 0 where
    pub proto : Protocol Value
    pub resp : TransportResponse
    pub streamed : Bool
    pub hint : Option Bytes
    pub context_window : Option ℕ
    pub fold_thinking : Bool

  unfoldable pub canonical_events : Sent → List (Event Value)
  unfolding response_events stamp_usage
  canonical_events sent =
      map (stamp_usage sent.context_window sent.fold_thinking)
        (response_events j sent.proto sent.resp sent.streamed sent.hint)
      ++ end ∷ []

  unfoldable pub drive :
      (sink : Sink Value) → Result (CanonicalError Value) Sent → Bool → sink.State → ℕ × sink.State
  unfolding canonical_events pump stream_raw fail_inband
  drive sink (ok sent) true s = stream_raw sink sent.resp s
  drive sink (ok sent) false s = pump sink (canonical_events sent) s
  drive sink (err e) raw_out s = fail_inband sink e s
