-- ===== src/Protocol/State/Track.antt =====
-- src/protocol/frame.rs: the blocks that a consumer of the events sees open, beside the decoder's
-- own map.
use brazen.Base.{ℕ, Bool, true, false, List, [], ◌∷◌, ◌++◌, ◌≡◌, refl, sym, ap, ◌∙◌, if◌then◌else◌}
use brazen.Base.Dict.{keys, keys-insert, keys-remove, insert_key, remove_key}
use brazen.Canonical.Event.{ContentKind, Event, content_start, content_stop}
use brazen.Protocol.State.{
  DecodeState, Emit, pure, ◌>>=◌, ◌>>◌, emit, gets, modify, start_block, stop_block,
}

module _ {V : Type 0} where
  -- The open blocks after one event.
  abbrev pub track_one : Event V → List ℕ → List ℕ
  track_one (content_start index kind) ks = insert_key index ks
  track_one (content_stop index) ks = remove_key index ks
  track_one _ ks = ks

  unfoldable pub track : List ℕ → List (Event V) → List ℕ
  track ks [] = ks
  track ks (ev ∷ evs) = track (track_one ev ks) evs

  pub track-append :
      (ks : List ℕ) (xs ys : List (Event V)) → track ks (xs ++ ys) ≡ track (track ks xs) ys
  unfolding track
  track-append ks [] ys = refl
  track-append ks (x ∷ xs) ys = track-append (track_one x ks) xs ys

  -- An action after which the map holds the blocks that its events leave open.
  pub record Tracks {A : Type 0} (m : Emit V A) : Type 0 where
    pub at : (s : DecodeState V) → keys (m s).1.opened ≡ track (keys s.opened) (m s).2

  abbrev pub IsNeutral : Event V → Type 0
  IsNeutral ev = (ks : List ℕ) → track_one ev ks ≡ ks

  pub Tracks-pure : {A : Type 0} (a : A) → Tracks (pure {V = V} a)
  unfolding pure track
  Tracks-pure a = record { at = λ s. refl }

  pub Tracks-gets : {A : Type 0} (f : DecodeState V → A) → Tracks (gets f)
  unfolding gets track
  Tracks-gets f = record { at = λ s. refl }

  pub Tracks-bind :
      {A B : Type 0} (m : Emit V A) (f : A → Emit V B)
      → Tracks m
      → ((a : A) → Tracks (f a))
      → Tracks (m >>= f)
  unfolding ◌>>=◌
  Tracks-bind m f hm hf = record {
    at = λ s.
        (hf (m s).0).at (m s).1
        ∙ ap (λ ks. track ks (f (m s).0 (m s).1).2) (hm.at s)
        ∙ sym (track-append (keys s.opened) (m s).2 (f (m s).0 (m s).1).2);
  }

  pub Tracks-then :
      {B : Type 0} (m : Emit V (Unit {0})) (k : Emit V B) → Tracks m → Tracks k → Tracks (m >> k)
  unfolding ◌>>◌
  Tracks-then m k hm hk = Tracks-bind m (λ _. k) hm (λ _. hk)

  pub Tracks-emit : (ev : Event V) → IsNeutral ev → Tracks (emit ev)
  unfolding emit track
  Tracks-emit ev h = record { at = λ s. sym (h (keys s.opened)) }

  pub Tracks-modify :
      (f : DecodeState V → DecodeState V)
      → ((s : DecodeState V) → (f s).opened ≡ s.opened)
      → Tracks (modify f)
  unfolding modify track
  Tracks-modify f h = record { at = λ s. ap keys (h s) }

  pub Tracks-start_block : (index : ℕ) (kind : ContentKind V) → Tracks (start_block index kind)
  unfolding start_block track
  Tracks-start_block i k = record { at = λ s. keys-insert i _ s.opened }

  pub Tracks-stop_block : (index : ℕ) → Tracks (stop_block {V = V} index)
  unfolding stop_block track
  Tracks-stop_block i = record { at = λ s. keys-remove i s.opened }

  pub Tracks-if :
      {A : Type 0} (b : Bool) (m n : Emit V A)
      → (b ≡ true → Tracks m)
      → (b ≡ false → Tracks n)
      → Tracks (if b then m else n)
  Tracks-if true m n hm hn = hm refl
  Tracks-if false m n hm hn = hn refl

pub ruleset tracks_rules = (
  Tracks-pure, Tracks-gets, Tracks-bind, Tracks-then, Tracks-emit, Tracks-start_block,
  Tracks-stop_block, Tracks-if,
)
