-- ===== src/Run/Drive/Broken.antt =====
-- src/run/drive.rs: the exit code of a response that breaks off.
use brazen.Base.{
  ℕ, Bool, true, false, List, Option, none, some, Bytes, ◌≡◌, refl, ap, ◌∙◌, inl, inr, Bool-cases,
}
use brazen.Base.Result.{ok}
use brazen.Canonical.Json.{Json}
use brazen.Canonical.Error.{exit_code, is_2xx}
use brazen.Canonical.Event.{Event}
use brazen.Protocol.State.{Protocol}
use brazen.Run.Stream.{transport_err, new}
use brazen.Run.Stream.Lazy.{collect}
use brazen.Run.Stream.Ends.{has_failed_read, BreaksOff, collect-BreaksOff}
use brazen.Run.Response.{
  TransportResponse, error_events, full_events, stamp_error, stamp_retry_after, response_events,
}
use brazen.Run.Drive.{Sink, event_exit, Sent, drive}
use brazen.Run.Drive.Fold.{last_exit, last_exit-error}
use brazen.Run.Drive.Exits.{Accepts, drain-none, drive-canonical, drive-raw}

module _ (j : Json) where
  open j use {Value}

  BreaksOff-exit : {evs : List (Event Value)} → BreaksOff evs → last_exit 0 evs ≡ 69
  BreaksOff-exit h =
      ap (last_exit 0) h.ends
      ∙ last_exit-error 0 h.before h.last
      ∙ ap exit_code h.kind
      ∙ (unfold exit_code in refl)

  error_events-exit :
      (proto : Protocol Value) (status : ℕ) (retry_after : Option ℕ) (hint : Option Bytes)
      → last_exit 0 (stamp_retry_after retry_after (error_events j proto status hint none)) ≡ 69
  unfolding last_exit event_exit stamp_retry_after stamp_error error_events transport_err
  error_events-exit proto status none hint = refl
  error_events-exit proto status (some secs) hint = refl

  full_events-exit : (proto : Protocol Value) → last_exit 0 (full_events j proto none) ≡ 69
  unfolding last_exit event_exit full_events transport_err
  full_events-exit proto = refl

  response_events-exit :
      (proto : Protocol Value) (resp : TransportResponse) (streamed : Bool) (hint : Option Bytes)
      → has_failed_read resp.body ≡ true
      → last_exit 0 (response_events j proto resp streamed hint) ≡ 69
  unfolding response_events
  response_events-exit proto resp streamed hint fails = elim (Bool-cases (is_2xx resp.status)) [
    | inr e ↦
        rw (e, drain-none j resp.body fails)
          (error_events-exit proto resp.status resp.retry_after hint)
    | inl e ↦ elim (Bool-cases streamed) [
      | inl t ↦
          rw (e, t)
            (BreaksOff-exit
              (collect-BreaksOff j proto resp.body (new j proto resp.body).core (inl fails)))
      | inr t ↦ rw (e, t, drain-none j resp.body fails) (full_events-exit proto)
    ]
  ]

  module _ (sink : Sink Value) (accepts : Accepts sink) where
    -- With a sink that takes every write, a response whose body breaks off in a failed read exits
    -- 69, whatever its protocol and its status, streamed or not, raw or decoded.
    pub drive-failed_read :
        (sent : Sent j) (raw_out : Bool) (s : sink.State)
        → has_failed_read sent.resp.body ≡ true
        → (drive j sink (ok sent) raw_out s).0 ≡ 69
    drive-failed_read sent true s fails = drive-raw j sink accepts sent s ∙ rw fails refl
    drive-failed_read sent false s fails =
        drive-canonical j sink accepts sent s
        ∙ response_events-exit sent.proto sent.resp sent.streamed sent.hint fails

    -- With a sink that takes every write, a streamed 2xx response of any protocol that ends before
    -- the decoder has seen the terminal marker exits 69 on the canonical way out: a cut stream is
    -- never taken for a finished one.
    pub drive-cut_stream :
        (sent : Sent j) (s : sink.State)
        → is_2xx sent.resp.status ≡ true
        → sent.streamed ≡ true
        → (collect j sent.proto sent.resp.body
            (new j sent.proto sent.resp.body).core).1.state.terminated
          ≡ false
        → (drive j sink (ok sent) false s).0 ≡ 69
    unfolding response_events
    drive-cut_stream sent s is_ok streams cut =
        drive-canonical j sink accepts sent s
        ∙ rw (is_ok, streams)
            (BreaksOff-exit (
              collect-BreaksOff j sent.proto sent.resp.body (new j sent.proto sent.resp.body).core
                (inr cut)))
