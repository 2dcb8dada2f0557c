-- ===== src/Run/Response.antt =====
-- src/run/events/mod.rs and `drain` of src/run/mod.rs: the events of a response. The `Retry-After`
-- header comes parsed.
pub mod Verdict
use brazen.Base.{
  ℕ, Bool, true, false, List, [], ◌∷◌, ◌++◌, Option, none, some, Bytes, str, map, if◌then◌else◌,
}
use brazen.Base.Result.{Result}
use brazen.Canonical.Json.{Json}
use brazen.Canonical.Error.{CanonicalError, is_2xx}
use brazen.Canonical.Event.{Event, finish, error}
use brazen.Framing.Frame.{Frame}
use brazen.Protocol.State.{Protocol, DecodeState, flatten, initial}
use brazen.Run.Stream.{transport_err, new}
use brazen.Run.Stream.Lazy.{collect}

-- `TransportResponse`, with the parsed header.
pub record TransportResponse : Type 0 where
  pub status : ℕ
  pub retry_after : Option ℕ
  pub body : List (Option Bytes)

-- The whole body, `none` when a read fails.
unfoldable pub drain : List (Option Bytes) → Option Bytes
drain [] = some []
drain (none ∷ rest) = none
drain (some chunk ∷ rest) = elim (drain rest) [ none ↦ none | some bytes ↦ some (chunk ++ bytes) ]

module _ {V : Type 0} where
  unfoldable pub append_hint : Bytes → Event V → Event V
  append_hint hint (error e) = error (record e { message = e.message ++ str "; " ++ hint })
  append_hint hint ev = ev

  unfoldable pub with_hint :
      Option Bytes → Result (CanonicalError V) (List (Event V)) → List (Event V)
  unfolding flatten append_hint
  with_hint none result = flatten result
  with_hint (some hint) result = map (append_hint hint) (flatten result)

  unfoldable pub stamp_error : ℕ → Event V → Event V
  stamp_error secs (error e) = error (record e { retry_after_seconds = some secs })
  stamp_error secs ev = ev

  unfoldable pub stamp_retry_after : Option ℕ → List (Event V) → List (Event V)
  unfolding stamp_error
  stamp_retry_after none events = events
  stamp_retry_after (some secs) events = map (stamp_error secs) events

  abbrev pub is_verdict : Event V → Bool
  is_verdict (finish r) = true
  is_verdict (error e) = true
  is_verdict _ = false

  -- `any`
  unfoldable pub has_verdict : List (Event V) → Bool
  has_verdict [] = false
  has_verdict (ev ∷ evs) = if is_verdict ev then true else has_verdict evs

  unfoldable pub ensure_terminal : List (Event V) → List (Event V)
  unfolding transport_err has_verdict
  ensure_terminal events =
      if has_verdict events
      then events
      else (events
          ++ error (
              transport_err
                (str "non-stream response carried no completion (empty or finish-less aggregate)"))
            ∷ [])

module _ (j : Json) (proto : Protocol j.Value) where
  open j use {Value}

  -- The events of a body that is no 2xx, and those of an aggregate.
  unfoldable pub error_events : ℕ → Option Bytes → Option Bytes → List (Event Value)
  unfolding with_hint transport_err
  error_events status hint none =
      error (transport_err (str "failed to read error response body")) ∷ []
  error_events status hint (some bytes) =
      let frame : Frame = record { event = none; data' = bytes; status = some status } in
      with_hint hint (proto.decode frame initial).0

  unfoldable pub full_events : Option Bytes → List (Event Value)
  unfolding ensure_terminal flatten transport_err
  full_events none = error (transport_err (str "failed to read response body")) ∷ []
  full_events (some bytes) = ensure_terminal (flatten (proto.decode_full bytes initial).0)

  unfoldable pub response_events : TransportResponse → Bool → Option Bytes → List (Event Value)
  unfolding is_2xx drain error_events full_events stamp_retry_after
  response_events resp streamed hint =
      if is_2xx resp.status
      then (if streamed
          then (collect j proto resp.body (new j proto resp.body).core).0
          else full_events (drain resp.body))
      else stamp_retry_after resp.retry_after (error_events resp.status hint (drain resp.body))
