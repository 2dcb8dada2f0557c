-- ===== src/Run/Drive/Exits.antt =====
-- src/run/drive.rs, src/run/raw.rs: the exit codes of both ways out.
use brazen.Base.{
  ℕ, Bool, true, false, List, [], ◌∷◌, ◌++◌, Option, none, some, Bytes, str, ◌≡◌, ◌↔◌, refl, ap,
  ◌∙◌, if◌then◌else◌,
}
use brazen.Base.Result.{Result, ok, err}
use brazen.Canonical.Json.{Json}
use brazen.Canonical.Error.{exit_code, is_2xx, exit_from_status, from_http_status}
use brazen.Canonical.Event.{Event, error, raw, end}
use brazen.Framing.Frame.{into_bytes}
use brazen.Run.Stream.{transport_err, Decoder, decoder, push}
use brazen.Run.Stream.Ends.{has_failed_read}
use brazen.Run.Response.{
  TransportResponse, drain, error_events, full_events, stamp_error, stamp_retry_after,
  response_events,
}
use brazen.Run.Drive.{
  Sink, event_exit, pump_from, pump, write_event, then_write, exit_of, write_frames, write_body,
  stream_raw, Sent, canonical_events, drive,
}
use brazen.Run.Drive.Fold.{has_error, last_exit, last_exit-stamp, last_exit-zero}
use brazen.Protocol.Anthropic.{decode}
use brazen.Protocol.Anthropic.Full.{anthropic}
use brazen.Protocol.State.{flatten}

-- A sink no write to which fails.
abbrev pub Accepts : {V : Type 0} → Sink V → Type 0
Accepts {V} sink = (ev : Event V) (s : sink.State) → (sink.write ev s).0 ≡ none

module _ {V : Type 0} (sink : Sink V) (accepts : Accepts sink) where
  pump_from-last_exit :
      (exit : ℕ) (evs : List (Event V)) (s : sink.State)
      → (pump_from sink exit evs s).0 ≡ last_exit exit evs
  unfolding pump_from last_exit
  pump_from-last_exit exit [] s = refl
  pump_from-last_exit exit (ev ∷ evs) s =
      rw (accepts ev s, pump_from)
        (pump_from-last_exit (event_exit ev exit) evs (sink.write ev s).1)

  pump-last_exit : (evs : List (Event V)) (s : sink.State) → (pump sink evs s).0 ≡ last_exit 0 evs
  unfolding pump
  pump-last_exit evs s = pump_from-last_exit 0 evs s

  -- With a sink that takes every write, the exit code is 0 exactly when no event is an error.
  pub pump_iff :
      (evs : List (Event V)) (s : sink.State) → ((pump sink evs s).0 ≡ 0) ↔ (has_error evs ≡ false)
  pump_iff evs s = rw (pump-last_exit evs s) (last_exit-zero evs)

  then_write-exit :
      (ev : Event V) (exit : ℕ) (s : sink.State)
      → (then_write sink ev (ok exit, s)).0 ≡ ok (event_exit ev exit)
  unfolding then_write write_event
  then_write-exit ev exit s = rw (accepts ev s) refl

  then_write-end : (m : Result ℕ ℕ × sink.State) → exit_of (then_write sink end m).0 ≡ exit_of m.0
  unfolding then_write write_event event_exit
  then_write-end (err c, s) = refl
  then_write-end (ok exit, s) = rw (accepts end s) refl

  -- A chunk becomes one frame, which sets no exit code.
  write_chunk-exit :
      (chunk : Bytes) (m : Result ℕ ℕ × sink.State) {exit : ℕ}
      → m.0 ≡ ok exit
      → (write_frames sink (push Decoder.identity chunk).0 m).0 ≡ ok exit
  unfolding write_frames push brazen.Framing.Lines.identity_push event_exit
  write_chunk-exit chunk (err c, s) h = cc
  write_chunk-exit chunk (ok e, s) h =
      then_write-exit (raw (into_bytes (record { event = none; data' = chunk; status = none }))) e s
      ∙ h

  write_body-exit :
      (body : List (Option Bytes)) (m : Result ℕ ℕ × sink.State) (exit : ℕ)
      → m.0 ≡ ok exit
      → (write_body sink body Decoder.identity m).0 ≡ ok (if has_failed_read body then 69 else exit)
  unfolding write_body has_failed_read event_exit transport_err
  write_body-exit [] m exit h = h
  write_body-exit (none ∷ rest) (err c, s) exit h = cc
  write_body-exit (none ∷ rest) (ok e, s) exit h =
      then_write-exit (error (transport_err (str "transport stream dropped"))) e s
  write_body-exit (some chunk ∷ rest) m exit h =
      write_body-exit rest _ exit (write_chunk-exit chunk m h)

  stream_raw-exit :
      (resp : TransportResponse) (s : sink.State)
      → (stream_raw sink resp s).0
        ≡ (if has_failed_read resp.body then 69 else exit_from_status resp.status)
  unfolding stream_raw decoder
  stream_raw-exit resp s =
      let start : Result ℕ ℕ × sink.State = (ok (exit_from_status resp.status), s) in
      then_write-end (write_body sink resp.body Decoder.identity start)
      ∙ ap exit_of (write_body-exit resp.body start _ refl)

module _ (j : Json) where
  open j use {Value}

  -- The error of a response that is no 2xx has the kind of the status.
  status_frame-exit :
      (status : ℕ) (retry_after : Option ℕ) (hint : Option Bytes) (bytes : Bytes)
      → last_exit 0
          (stamp_retry_after retry_after (error_events j (anthropic j) status hint (some bytes)))
        ≡ exit_code (from_http_status status)
  unfolding last_exit event_exit stamp_retry_after stamp_error error_events
      brazen.Run.Response.with_hint brazen.Run.Response.append_hint flatten decode
      brazen.Protocol.Access.http_error
  status_frame-exit status none none bytes = refl
  status_frame-exit status none (some hint) bytes = refl
  status_frame-exit status (some secs) none bytes = refl
  status_frame-exit status (some secs) (some hint) bytes = refl

  drain-some :
      (body : List (Option Bytes))
      → has_failed_read body ≡ false
      → (bytes : Bytes) × (drain body ≡ some bytes)
  unfolding has_failed_read drain
  drain-some [] h = ([], refl)
  drain-some (none ∷ rest) h = cc
  drain-some (some chunk ∷ rest) h =
      let (bytes, e) = drain-some rest h in (chunk ++ bytes, rw e refl)

  pub drain-none : (body : List (Option Bytes)) → has_failed_read body ≡ true → drain body ≡ none
  unfolding has_failed_read drain
  drain-none [] h = cc
  drain-none (none ∷ rest) h = refl
  drain-none (some chunk ∷ rest) h = rw (drain-none rest h) refl

  module _ (sink : Sink Value) (accepts : Accepts sink) where
    pub drive-canonical :
        (sent : Sent j) (s : sink.State)
        → (drive j sink (ok sent) false s).0
          ≡ last_exit 0 (response_events j sent.proto sent.resp sent.streamed sent.hint)
    unfolding drive canonical_events
    drive-canonical sent s =
        pump-last_exit sink accepts (canonical_events j sent) s
        ∙ last_exit-stamp sent.context_window sent.fold_thinking 0 _

    pub drive-raw :
        (sent : Sent j) (s : sink.State)
        → (drive j sink (ok sent) true s).0
          ≡ (if has_failed_read sent.resp.body then 69 else exit_from_status sent.resp.status)
    unfolding drive
    drive-raw sent s = stream_raw-exit sink accepts sent.resp s

    -- With a sink that takes every write, an Anthropic response that is no 2xx and whose body is
    -- read to its end gives the exit code of its status, both on the raw way out, which never looks
    -- into the body, and on the canonical one, which reads it off the decoded error.
    pub drive-status :
        (sent : Sent j) (raw_out : Bool) (s : sink.State)
        → sent.proto ≡ anthropic j
        → is_2xx sent.resp.status ≡ false
        → has_failed_read sent.resp.body ≡ false
        → (drive j sink (ok sent) raw_out s).0 ≡ exit_from_status sent.resp.status
    unfolding response_events exit_from_status
    drive-status sent true s p not_2xx reads = drive-raw sent s ∙ rw (reads) refl
    drive-status sent false s p not_2xx reads =
        let (bytes, e) = drain-some sent.resp.body reads in
        drive-canonical sent s ∙ rw (p, not_2xx, e) (status_frame-exit _ _ _ bytes)
