-- ===== src/Run/Stream/Lazy.antt =====
-- src/run/events/stream.rs: the pull iterator, and the same body in one pass.
use brazen.Base.{
  Bool, true, false, List, [], ◌∷◌, ◌++◌, Option, none, some, Bytes, ◌≡◌, refl, append_assoc,
  append-nil,
}
use brazen.Canonical.Json.{Json}
use brazen.Canonical.Event.{Event}
use brazen.Protocol.State.{Protocol}
use brazen.Run.Stream.{
  Core, StreamEvents, yields, stops, goes_on, feed_chunk, drop_stream, finish_body, round_of, round,
  new,
}

module _ (j : Json) (proto : Protocol j.Value) where
  open j use {Value}

  -- The calls of `next` up to the first `None` return these events.
  pub data Yields : StreamEvents j proto → List (Event Value) → Type 0 where
    stop : {s : StreamEvents j proto} → round j proto s ≡ stops → Yields s []
    event :
        {s s' : StreamEvents j proto} {ev : Event Value} {evs : List (Event Value)}
        → round j proto s ≡ yields ev s'
        → Yields s' evs
        → Yields s (ev ∷ evs)
    again :
        {s s' : StreamEvents j proto} {evs : List (Event Value)}
        → round j proto s ≡ goes_on s'
        → Yields s' evs
        → Yields s evs

  -- The same body in one pass: the events, and the state at the end.
  unfoldable pub collect : List (Option Bytes) → Core Value → List (Event Value) × Core Value
  collect [] c = finish_body j proto c
  collect (some chunk ∷ rest) c =
      let (out, c') = feed_chunk j proto chunk c in
      let (later, c'') = collect rest c' in (out ++ later, c'')
  collect (none ∷ rest) c = drop_stream j proto c

  pending_first :
      (p evs : List (Event Value)) (s : StreamEvents j proto)
      → Yields (record s { pending = [] }) evs
      → Yields (record s { pending = p }) (p ++ evs)
  unfolding round_of
  pending_first [] evs s y = y
  pending_first (ev ∷ p) evs s y = event refl (pending_first p evs s y)

  abbrev at_rest : Core Value → List (Option Bytes) → Bool → Bool → StreamEvents j proto
  at_rest c body body_done finished = record {
    core = c;
    body = body;
    pending = [];
    body_done = body_done;
    finished = finished;
  }

  finished-Yields :
      (c : Core Value) (body : List (Option Bytes)) (done : Bool)
      → Yields (at_rest c body done true) []
  unfolding round_of
  finished-Yields c body done = stop refl

  -- A round that leaves `out` pending.
  then_pending :
      {s : StreamEvents j proto} (s' : StreamEvents j proto) (out evs : List (Event Value))
      → round j proto s ≡ goes_on (record s' { pending = out })
      → Yields (record s' { pending = [] }) evs
      → Yields s (out ++ evs)
  then_pending s' out evs r y = again r (pending_first out evs s' y)

  done-Yields :
      (c : Core Value) (body : List (Option Bytes))
      → Yields (at_rest c body true false) ((finish_body j proto c).0 ++ [])
  unfolding round_of
  done-Yields c body =
      let c' = (finish_body j proto c).1 in
      then_pending (at_rest c' body true true) (finish_body j proto c).0 [] refl
        (finished-Yields c' body true)

  body-Yields :
      (body : List (Option Bytes)) (c : Core Value)
      → Yields (at_rest c body false false) ((collect body c).0 ++ [])
  unfolding round_of collect
  body-Yields [] c = again refl (done-Yields c [])
  body-Yields (some chunk ∷ rest) c =
      let c' = (feed_chunk j proto chunk c).1 in
      rw append_assoc (
        then_pending (at_rest c' rest false false) (feed_chunk j proto chunk c).0 _ refl
          (body-Yields rest c'))
  body-Yields (none ∷ rest) c =
      let c' = (drop_stream j proto c).1 in
      then_pending (at_rest c' rest false true) (drop_stream j proto c).0 [] refl
        (finished-Yields c' rest false)

  -- For every body, repeated calls of `next` on a new stream return the events of one pass over
  -- the body, in order, and then `None`.
  pub new-Yields :
      (body : List (Option Bytes))
      → Yields (new j proto body) (collect body (new j proto body).core).0
  unfolding new
  new-Yields body = rw append-nil at (body-Yields body (new j proto body).core)
