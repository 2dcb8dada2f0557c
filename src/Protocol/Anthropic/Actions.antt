-- ===== src/Protocol/Anthropic/Actions.antt =====
-- src/protocol/anthropic/decode/: the actions of the decoder and the open blocks.
use brazen.Base.{ℕ, true, Option, none, some, Bytes, ◌≡◌, refl, str, inl, inr, Option-cases}
use brazen.Base.Dict
use brazen.Base.Dict.{keys, mem-keys, remove_key, keys-remove, remove-get_none}
use brazen.Canonical.Json.{Json}
use brazen.Canonical.Event.{ContentKind, Delta}
use brazen.Protocol.State.{DecodeState, pure, ◌>>=◌, emit, gets, stop_block}
use brazen.Protocol.State.Track.{
  Tracks, Tracks-pure, Tracks-emit, Tracks-start_block, Tracks-if, Tracks-then, Tracks-bind,
  Tracks-gets, Tracks-stop_block,
}
use brazen.Protocol.State.Route.{
  Routed, Routes, Routes-pure, Routes-emit, Routes-start_block, Routes-then, Routes-if,
}
use brazen.Protocol.Anthropic.Blocks.{
  start_kind, push_delta, content_block_delta, content_block_stop,
}
use brazen.Protocol.Anthropic.Messages.{push_usage, message_start, push_finish, message_delta}
use brazen.Protocol.Access.{u32_at}

module _ (j : Json) where
  open j use {Value, at_key, get, as_str, is_object}

  pub start_kind-Tracks : (i : ℕ) (o : Option (ContentKind Value)) → Tracks (start_kind j i o)
  unfolding start_kind
  start_kind-Tracks i none = Tracks-pure tt
  start_kind-Tracks i (some k) = Tracks-start_block i k

  pub start_kind-Routes : (i : ℕ) (o : Option (ContentKind Value)) → Routes (start_kind j i o)
  unfolding start_kind
  start_kind-Routes i none = Routes-pure tt
  start_kind-Routes i (some k) = Routes-start_block i k

  pub push_delta-Tracks : (i : ℕ) (o : Option (Delta Value)) → Tracks (push_delta j i o)
  unfolding push_delta
  push_delta-Tracks i none = Tracks-pure tt
  push_delta-Tracks i (some d) = Tracks-emit _ (λ ks. refl)

  pub push_usage-Tracks : (o : Option Value) → Tracks (push_usage j o)
  unfolding push_usage
  push_usage-Tracks none = Tracks-pure tt
  push_usage-Tracks (some u) =
      Tracks-if (is_object u) _ _ (λ _. Tracks-emit _ (λ ks. refl)) (λ _. Tracks-pure tt)

  pub push_usage-Routes : (o : Option Value) → Routes (push_usage j o)
  unfolding push_usage
  push_usage-Routes none = Routes-pure tt
  push_usage-Routes (some u) =
      Routes-if (is_object u) _ _ (λ _. Routes-emit _ (λ ks. tt)) (λ _. Routes-pure tt)

  pub push_finish-Tracks : (o : Option Bytes) (d : Value) → Tracks (push_finish j o d)
  unfolding push_finish
  push_finish-Tracks none d = Tracks-pure tt
  push_finish-Tracks (some r) d = Tracks-emit _ (λ ks. refl)

  pub push_finish-Routes : (o : Option Bytes) (d : Value) → Routes (push_finish j o d)
  unfolding push_finish
  push_finish-Routes none d = Routes-pure tt
  push_finish-Routes (some r) d = Routes-emit _ (λ ks. tt)

  pub message_start-Tracks : (v : Value) → Tracks (message_start j v)
  unfolding message_start
  message_start-Tracks v = Tracks-then _ _ (Tracks-emit _ (λ ks. refl)) (push_usage-Tracks _)

  pub message_start-Routes : (v : Value) → Routes (message_start j v)
  unfolding message_start
  message_start-Routes v =
      Routes-then _ _ (Tracks-emit _ (λ ks. refl)) (Routes-emit _ (λ ks. tt)) (push_usage-Routes _)

  pub message_delta-Tracks : (v : Value) → Tracks (message_delta j v)
  unfolding message_delta
  message_delta-Tracks v = Tracks-then _ _ (push_usage-Tracks _) (push_finish-Tracks _ _)

  pub message_delta-Routes : (v : Value) → Routes (message_delta j v)
  unfolding message_delta
  message_delta-Routes v =
      Routes-then _ _ (push_usage-Tracks _) (push_usage-Routes _) (push_finish-Routes _ _)

  pub content_block_delta-Tracks : (v : Value) → Tracks (content_block_delta j v)
  unfolding content_block_delta
  content_block_delta-Tracks v =
      Tracks-bind _ _ (Tracks-gets _)
        (λ b. Tracks-if b _ _ (λ _. push_delta-Tracks _ _) (λ _. Tracks-pure tt))

  pub content_block_stop-Tracks : (v : Value) → Tracks (content_block_stop j v)
  unfolding content_block_stop
  content_block_stop-Tracks v =
      Tracks-bind _ _ (Tracks-gets _)
        (λ b. Tracks-if b _ _ (λ _. Tracks-stop_block _) (λ _. Tracks-pure tt))

  push_delta-Routed :
      (i : ℕ) (o : Option (Delta Value)) (s : DecodeState Value)
      → Dict.mem i (keys s.opened) ≡ true
      → Routed (keys s.opened) (push_delta j i o s).2
  unfolding push_delta pure emit
  push_delta-Routed i none s h = tt
  push_delta-Routed i (some d) s h = (h, tt)

  -- A fragment is pushed only for a block that the map holds.
  pub content_block_delta-Routes : (v : Value) → Routes (content_block_delta j v)
  unfolding content_block_delta gets ◌>>=◌ pure
  content_block_delta-Routes v = record {
    at = λ s. elim (Option-cases (Dict.get (u32_at j v (str "index")) s.opened)) [
      | inl e ↦ rw e tt
      | inr (b, e) ↦ rw e (push_delta-Routed _ _ s (mem-keys _ s.opened b e))
    ];
  }

  pub content_block_stop-Routes : (v : Value) → Routes (content_block_stop j v)
  unfolding content_block_stop gets ◌>>=◌ pure stop_block
  content_block_stop-Routes v = record {
    at = λ s. elim (Option-cases (Dict.get (u32_at j v (str "index")) s.opened)) [
      | inl e ↦ rw e tt
      | inr (b, e) ↦ rw e (mem-keys _ s.opened b e, tt)
    ];
  }
