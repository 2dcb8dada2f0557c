-- ===== src/Protocol/Anthropic/Replayed.antt =====
-- src/protocol/anthropic/decode/mod.rs: the actions of a complete body and the open blocks.
use brazen.Base.{ℕ, suc, List, [], ◌∷◌}
use brazen.Canonical.Json.{Json}
use brazen.Protocol.State.Track.{Tracks, Tracks-pure, Tracks-then}
use brazen.Protocol.State.Route.{Routes, Routes-pure, Routes-then}
use brazen.Protocol.Access.{as_u32}
use brazen.Protocol.Anthropic.Full.{push_deltas, explode_block, explode_blocks, explode}
use brazen.Protocol.Anthropic.Actions.{
  message_start-Tracks, message_start-Routes, message_delta-Tracks, message_delta-Routes,
  content_block_delta-Tracks, content_block_delta-Routes, content_block_stop-Tracks,
  content_block_stop-Routes,
}
use brazen.Protocol.Anthropic.Routed.{content_block_start-Tracks, content_block_start-Routes}

module _ (j : Json) where
  open j use {Value, object, at_key}

  push_deltas-Tracks : (i : ℕ) (ds : List Value) → Tracks (push_deltas j i ds)
  unfolding push_deltas
  push_deltas-Tracks i [] = Tracks-pure tt
  push_deltas-Tracks i (d ∷ ds) =
      Tracks-then _ _ (content_block_delta-Tracks j _) (push_deltas-Tracks i ds)

  push_deltas-Routes : (i : ℕ) (ds : List Value) → Routes (push_deltas j i ds)
  unfolding push_deltas
  push_deltas-Routes i [] = Routes-pure tt
  push_deltas-Routes i (d ∷ ds) =
      Routes-then _ _ (content_block_delta-Tracks j _) (content_block_delta-Routes j _)
        (push_deltas-Routes i ds)

  explode_block-Tracks : (i : ℕ) (b : Value) → Tracks (explode_block j i b)
  unfolding explode_block
  explode_block-Tracks i b =
      Tracks-then _ _ (content_block_start-Tracks j _)
        (Tracks-then _ _ (push_deltas-Tracks i _) (content_block_stop-Tracks j _))

  explode_block-Routes : (i : ℕ) (b : Value) → Routes (explode_block j i b)
  unfolding explode_block
  explode_block-Routes i b =
      Routes-then _ _ (content_block_start-Tracks j _) (content_block_start-Routes j _) (
        Routes-then _ _ (push_deltas-Tracks i _) (push_deltas-Routes i _)
          (content_block_stop-Routes j _))

  explode_blocks-Tracks : (i : ℕ) (bs : List Value) → Tracks (explode_blocks j i bs)
  unfolding explode_blocks
  explode_blocks-Tracks i [] = Tracks-pure tt
  explode_blocks-Tracks i (b ∷ bs) =
      Tracks-then _ _ (explode_block-Tracks (as_u32 i) b) (explode_blocks-Tracks (suc i) bs)

  explode_blocks-Routes : (i : ℕ) (bs : List Value) → Routes (explode_blocks j i bs)
  unfolding explode_blocks
  explode_blocks-Routes i [] = Routes-pure tt
  explode_blocks-Routes i (b ∷ bs) =
      Routes-then _ _ (explode_block-Tracks (as_u32 i) b) (explode_block-Routes (as_u32 i) b)
        (explode_blocks-Routes (suc i) bs)

  pub explode-Tracks : (v : Value) → Tracks (explode j v)
  unfolding explode
  explode-Tracks v =
      Tracks-then _ _ (message_start-Tracks j _)
        (Tracks-then _ _ (explode_blocks-Tracks 0 _) (message_delta-Tracks j _))

  pub explode-Routes : (v : Value) → Routes (explode j v)
  unfolding explode
  explode-Routes v = Routes-then _ _ (message_start-Tracks j _) (message_start-Routes j _) (
      Routes-then _ _ (explode_blocks-Tracks 0 _) (explode_blocks-Routes 0 _)
        (message_delta-Routes j _))
