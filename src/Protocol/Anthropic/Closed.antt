-- ===== src/Protocol/Anthropic/Closed.antt =====
-- src/protocol/anthropic/decode/mod.rs: the open blocks after the decoding of a complete body.
use mathlib.Core.Path.{subst}
use brazen.Base.{
  ℕ, suc, Bool, true, false, List, [], ◌∷◌, Option, none, some, Bytes, String, str, ◌≡◌, refl, sym,
  ap, ◌∙◌, arith, inl, inr, Bool-cases, Option-cases, if◌then◌else◌,
}
use brazen.Base.Dict
use brazen.Base.Dict.{Dict, keys, remove-get_none}
use brazen.Base.Result.{Result, ok, err}
use brazen.Canonical.Json.{Json, JsonLaws, has_key, at_key-single}
use brazen.Canonical.Error.{CanonicalError}
use brazen.Canonical.Event.{ContentKind, Delta}
use brazen.Protocol.State.{OpenBlock, DecodeState, flatten, Emit, pure, ◌>>=◌, ◌>>◌, emit, gets}
use brazen.Protocol.State.Track.{track}
use brazen.Protocol.State.Route.{Routed}
use brazen.Protocol.Access.{parse, u32_at, as_u32}
use brazen.Protocol.Anthropic.Blocks.{
  start_kind, content_block_start, push_delta, content_block_delta, content_block_stop,
}
use brazen.Protocol.Anthropic.Messages.{push_usage, message_start, push_finish, message_delta}
use brazen.Protocol.Anthropic.Full.{
  start_step, delta_step, stop_step, deltas, push_deltas, explode_block, explode_blocks, explode,
  full_data, decode_full,
}
use brazen.Protocol.Anthropic.Replayed.{explode-Tracks, explode-Routes}
use brazen.Protocol.State.{start_block}

module _ (j : Json) where
  open j use {Value, object, at_key}

  -- Actions that leave the open blocks alone.
  push_usage-opened :
      (o : Option Value) (s : DecodeState Value) → (push_usage j o s).1.opened ≡ s.opened
  unfolding push_usage emit pure
  push_usage-opened none s = refl
  push_usage-opened (some u) s = ground arith

  push_finish-opened :
      (o : Option Bytes) (d : Value) (s : DecodeState Value)
      → (push_finish j o d s).1.opened ≡ s.opened
  unfolding push_finish emit pure
  push_finish-opened none d s = refl
  push_finish-opened (some r) d s = refl

  message_start-opened :
      (v : Value) (s : DecodeState Value) → (message_start j v s).1.opened ≡ s.opened
  unfolding message_start emit ◌>>=◌ ◌>>◌
  message_start-opened v s = push_usage-opened _ s

  message_delta-opened :
      (v : Value) (s : DecodeState Value) → (message_delta j v s).1.opened ≡ s.opened
  unfolding message_delta ◌>>=◌ ◌>>◌
  message_delta-opened v s = push_finish-opened _ _ _ ∙ push_usage-opened _ s

  push_delta-opened :
      (i : ℕ) (o : Option (Delta Value)) (s : DecodeState Value)
      → (push_delta j i o s).1.opened ≡ s.opened
  unfolding push_delta emit pure
  push_delta-opened i none s = refl
  push_delta-opened i (some d) s = refl

  content_block_delta-opened :
      (v : Value) (s : DecodeState Value) → (content_block_delta j v s).1.opened ≡ s.opened
  unfolding content_block_delta gets ◌>>=◌ pure
  content_block_delta-opened v s =
      elim (Option-cases (Dict.get (u32_at j v (str "index")) s.opened)) [
        | inl e ↦ rw e refl
        | inr (b, e) ↦ rw e (push_delta-opened _ _ s)
      ]

  push_deltas-opened :
      (i : ℕ) (ds : List Value) (s : DecodeState Value) → (push_deltas j i ds s).1.opened ≡ s.opened
  unfolding push_deltas ◌>>=◌ ◌>>◌ pure
  push_deltas-opened i [] s = refl
  push_deltas-opened i (d ∷ ds) s =
      push_deltas-opened i ds _ ∙ content_block_delta-opened (delta_step j i d) s

  content_block_stop-opened :
      (v : Value) (s : DecodeState Value)
      → (content_block_stop j v s).1.opened ≡ Dict.remove (u32_at j v (str "index")) s.opened
  unfolding content_block_stop gets ◌>>=◌ pure brazen.Protocol.State.stop_block
  content_block_stop-opened v s =
      elim (Option-cases (Dict.get (u32_at j v (str "index")) s.opened)) [
        | inl e ↦ rw e (sym (remove-get_none _ s.opened e))
        | inr (b, e) ↦ rw e refl
      ]

  -- A block is opened under the position that its fragments and its stop name.
  start_kind-remove :
      (i : ℕ) (o : Option (ContentKind Value)) (s : DecodeState Value)
      → s.opened ≡ []
      → Dict.remove i (start_kind j i o s).1.opened ≡ []
  unfolding start_kind start_block pure Dict.insert Dict.remove
  start_kind-remove i none s h = rw h refl
  start_kind-remove i (some k) s h = rw h (ground arith)

  module _ (laws : JsonLaws j) where
    step_index :
        (i : ℕ) (key : String) (v : Value)
        → has_key (str "index") ((str key, v) ∷ []) ≡ false
        → u32_at j (object ((str "index", j.number i) ∷ (str key, v) ∷ [])) (str "index")
          ≡ u32_at j (stop_step j i) (str "index")
    unfolding u32_at
    step_index i key v h =
        rw
          (
            laws.at_key-object (str "index") (j.number i) ((str key, v) ∷ []) h,
            at_key-single laws (str "index") (j.number i),
            u32_at,
          )
          refl

    explode_block-closed :
        (i : ℕ) (b : Value) (s : DecodeState Value)
        → s.opened ≡ []
        → (explode_block j i b s).1.opened ≡ []
    unfolding explode_block ◌>>=◌ ◌>>◌ content_block_start brazen.Base.bytes_eq str
    explode_block-closed i b s h =
        content_block_stop-opened (stop_step j i) _
        ∙ ap (Dict.remove (u32_at j (stop_step j i) (str "index")))
            (push_deltas-opened i (deltas j b) _)
        ∙ ap (λ k. Dict.remove k (content_block_start j (start_step j i b) s).1.opened)
            (sym (step_index i "content_block" b (unfold has_key in refl)))
        ∙ start_kind-remove _ _ s h

    explode_blocks-closed :
        (i : ℕ) (bs : List Value) (s : DecodeState Value)
        → s.opened ≡ []
        → (explode_blocks j i bs s).1.opened ≡ []
    unfolding explode_blocks ◌>>=◌ ◌>>◌ pure
    explode_blocks-closed i [] s h = h
    explode_blocks-closed i (b ∷ bs) s h =
        explode_blocks-closed (suc i) bs _ (explode_block-closed (as_u32 i) b s h)

    explode-closed :
        (v : Value) (s : DecodeState Value) → s.opened ≡ [] → (explode j v s).1.opened ≡ []
    unfolding explode ◌>>=◌ ◌>>◌
    explode-closed v s h =
        message_delta-opened _ _ ∙ explode_blocks-closed 0 _ _ (message_start-opened _ s ∙ h)

    full_data-closed :
        (r : Result (CanonicalError Value) Value) (s : DecodeState Value)
        → s.opened ≡ []
        → ((full_data j r s).1.opened ≡ [])
          × (track [] (flatten (full_data j r s).0) ≡ [])
          × Routed [] (flatten (full_data j r s).0)
    unfolding flatten keys
    full_data-closed (ok v) s h =
        let shut = explode-closed v s h in
        (
          shut,
          ap (λ m. track (keys m) (explode j v s).2) (sym h)
              ∙ sym ((explode-Tracks j v).at s)
              ∙ ap keys shut,
          subst (λ m. Routed (keys m) (explode j v s).2) h ((explode-Routes j v).at s),
        )
    full_data-closed (err e) s h = (h, unfold track in refl, tt)

    -- Decoding a complete body with no block open gives events in which every fragment and every
    -- stop names an open block and in which every block that starts also stops, and it leaves no
    -- block open. It rests on the documented behaviour of JSON objects and numbers.
    pub decode_full-closed :
        (body : Bytes) (s : DecodeState Value)
        → s.opened ≡ []
        → ((decode_full j body s).1.opened ≡ [])
          × (track [] (flatten (decode_full j body s).0) ≡ [])
          × Routed [] (flatten (decode_full j body s).0)
    unfolding decode_full parse
    decode_full-closed body s h = full_data-closed (parse j body) s h
