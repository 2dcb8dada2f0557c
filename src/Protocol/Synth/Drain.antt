-- ===== src/Protocol/Synth/Drain.antt =====
-- src/protocol/synth.rs: the terminal drain.
use brazen.Base.{ℕ, List, [], ◌∷◌, none, some, Option, ◌≡◌, refl, ap, ◌∙◌, map, Bool}
use brazen.Base.Dict
use brazen.Base.Dict.{
  Dict, keys, sort, remove_keys, keys-remove, remove_keys-sort, IsSorted, sort-IsSorted,
}
use brazen.Canonical.Event.{ContentKind, content_stop}
use brazen.Protocol.State.{OpenBlock, DecodeState, pure, ◌>>=◌, ◌>>◌, gets, stop_block}
use brazen.Protocol.State.Track.{
  Tracks, tracks_rules, Tracks-then, Tracks-bind, Tracks-pure, Tracks-gets, Tracks-stop_block,
}
use brazen.Protocol.Synth.{open_found, open_lazy, open_text, open_thinking, stop_blocks, drain}

module _ {V : Type 0} where
  stop_blocks-Tracks : (ks : List ℕ) → Tracks (stop_blocks {V = V} ks)
  unfolding stop_blocks
  stop_blocks-Tracks [] = Tracks-pure tt
  stop_blocks-Tracks (k ∷ ks) = Tracks-then _ _ (Tracks-stop_block k) (stop_blocks-Tracks ks)

  pub drain-Tracks : Tracks (drain {V = V})
  unfolding drain
  drain-Tracks = Tracks-bind _ _ (Tracks-gets _) stop_blocks-Tracks

  open_found-Tracks : (kind : ContentKind V) (o : Option ℕ) → Tracks (open_found kind o)
  unfolding open_found
  open_found-Tracks kind (some i) = search tracks_rules
  open_found-Tracks kind none = search tracks_rules

  open_lazy-Tracks :
      (same : ContentKind V → Bool) (kind : ContentKind V) → Tracks (open_lazy same kind)
  unfolding open_lazy
  open_lazy-Tracks same kind = Tracks-bind _ _ (Tracks-gets _) (open_found-Tracks kind)

  pub open_text-Tracks : Tracks (open_text {V = V})
  unfolding open_text
  open_text-Tracks = open_lazy-Tracks _ _

  pub open_thinking-Tracks : Tracks (open_thinking {V = V})
  unfolding open_thinking
  open_thinking-Tracks = open_lazy-Tracks _ _

  keys_nil : (m : Dict (OpenBlock V)) → keys m ≡ [] → m ≡ []
  unfolding keys
  keys_nil [] h = refl
  keys_nil ((k, v) ∷ m) h = cc

  stop_blocks_lem :
      (ks : List ℕ) (s : DecodeState V)
      → (keys (stop_blocks ks s).1.opened ≡ remove_keys ks (keys s.opened))
        × ((stop_blocks ks s).2 ≡ map content_stop ks)
  unfolding stop_blocks pure ◌>>◌ stop_block remove_keys
  stop_blocks_lem [] s = (refl, refl)
  stop_blocks_lem (k ∷ ks) s =
      let s' = record s { opened = Dict.remove k s.opened } in
      let (open_keys, stops) = stop_blocks_lem ks s' in
      (open_keys ∙ ap (remove_keys ks) (keys-remove k s.opened), ap (◌∷◌ (content_stop k)) stops)

  -- After the drain no block is open; it pushes one `ContentStop` for each block that was open, in
  -- ascending order of the index, and nothing else.
  pub drain_lem :
      (s : DecodeState V)
      → ((drain s).1.opened ≡ [])
        × ((drain s).2 ≡ map content_stop (sort (keys s.opened)))
        × IsSorted (sort (keys s.opened))
  unfolding drain gets ◌>>=◌
  drain_lem s =
      let (open_keys, stops) = stop_blocks_lem (sort (keys s.opened)) s in
      (
        keys_nil _ (open_keys ∙ remove_keys-sort (keys s.opened)),
        stops,
        sort-IsSorted (keys s.opened),
      )
