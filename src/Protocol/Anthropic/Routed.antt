-- ===== src/Protocol/Anthropic/Routed.antt =====
-- src/protocol/anthropic/decode/mod.rs: the events of a frame and the map of open blocks.
use brazen.Base.{true, Bytes, ◌≡◌, refl, inl, inr, Option-cases}
use brazen.Base.Dict.{keys}
use brazen.Base.Result.{Result, ok, err}
use brazen.Canonical.Json.{Json}
use brazen.Canonical.Error.{CanonicalError}
use brazen.Framing.Frame.{Frame}
use brazen.Protocol.State.{DecodeState, flatten}
use brazen.Protocol.State.Track.{track, Tracks, Tracks-pure, Tracks-emit, Tracks-if, Tracks-modify}
use brazen.Protocol.State.Route.{Routed, Routes, Routes-pure, Routes-emit, Routes-if, Routes-modify}
use brazen.Protocol.Access.{parse}
use brazen.Protocol.Anthropic.{dispatch, decode_data, decode}
use brazen.Protocol.Anthropic.Actions.{
  message_start-Tracks, message_start-Routes, message_delta-Tracks, message_delta-Routes,
  content_block_delta-Tracks, content_block_delta-Routes, content_block_stop-Tracks,
  content_block_stop-Routes, start_kind-Tracks, start_kind-Routes,
}
use brazen.Canonical.Event.{error}
use brazen.Protocol.Anthropic.Errors.{error_value}
use brazen.Protocol.Anthropic.Blocks.{content_block_start}

module _ (j : Json) where
  open j use {Value}

  pub content_block_start-Tracks : (v : Value) → Tracks (content_block_start j v)
  unfolding content_block_start
  content_block_start-Tracks v = start_kind-Tracks j _ _

  pub content_block_start-Routes : (v : Value) → Routes (content_block_start j v)
  unfolding content_block_start
  content_block_start-Routes v = start_kind-Routes j _ _

  dispatch-Tracks : (t : Bytes) (v : Value) → Tracks (dispatch j t v)
  unfolding dispatch
  dispatch-Tracks t v =
      search
        (
          Tracks-if,
          message_start-Tracks j v,
          content_block_start-Tracks v,
          content_block_delta-Tracks j v,
          content_block_stop-Tracks j v,
          message_delta-Tracks j v,
          Tracks-modify (λ s. record s { terminated = true }) (λ s. refl),
          Tracks-emit (error (error_value j v)) (λ ks. refl),
          Tracks-pure tt,
        )
        depth 12

  dispatch-Routes : (t : Bytes) (v : Value) → Routes (dispatch j t v)
  unfolding dispatch
  dispatch-Routes t v =
      search
        (
          Routes-if,
          message_start-Routes j v,
          content_block_start-Routes v,
          content_block_delta-Routes j v,
          content_block_stop-Routes j v,
          message_delta-Routes j v,
          Routes-modify (λ s. record s { terminated = true }),
          Routes-emit (error (error_value j v)) (λ ks. tt),
          Routes-pure tt,
        )
        depth 12

  decode_data_lem :
      (r : Result (CanonicalError Value) Value) (s : DecodeState Value)
      → (keys (decode_data j r s).1.opened ≡ track (keys s.opened) (flatten (decode_data j r s).0))
        × Routed (keys s.opened) (flatten (decode_data j r s).0)
  unfolding flatten
  decode_data_lem (ok v) s = ((dispatch-Tracks _ v).at s, (dispatch-Routes _ v).at s)
  decode_data_lem (err e) s = unfold track in (refl, tt)

  -- Whatever the frame and the state, every fragment and every stop that the decoder gives names a
  -- block that is open when it comes, and the decoder's map holds afterwards exactly the blocks that
  -- a consumer of the events sees open.
  pub decode-Routed :
      (frame : Frame) (s : DecodeState Value)
      → (keys (decode j frame s).1.opened ≡ track (keys s.opened) (flatten (decode j frame s).0))
        × Routed (keys s.opened) (flatten (decode j frame s).0)
  unfolding decode parse
  decode-Routed frame s = elim (Option-cases frame.status) [
    | inl e ↦ rw (e, decode) (decode_data_lem (parse j frame.data') s)
    | inr (status, e) ↦ rw (e, decode) (unfold track flatten in (refl, tt))
  ]
