-- ===== src/Protocol/State/Route.antt =====
-- src/protocol/frame.rs: events and the blocks that are open when they come.
use brazen.Base.{ℕ, Bool, true, false, List, [], ◌∷◌, ◌++◌, ◌≡◌, refl, if◌then◌else◌}
use brazen.Base.Dict.{keys, mem, insert_key, remove_key}
use brazen.Canonical.Event.{ContentKind, Event, content_start, content_delta, content_stop}
use brazen.Protocol.State.{DecodeState, Emit, pure, ◌>>=◌, ◌>>◌, emit, gets, modify, start_block}
use brazen.Protocol.State.Track.{track, Tracks}

module _ {V : Type 0} where
  -- From the open blocks `ks` on, every delta and every stop names a block that is open.
  abbrev pub Routed : List ℕ → List (Event V) → Type 0
  Routed ks [] = Unit
  Routed ks (content_delta index d ∷ evs) = (mem index ks ≡ true) × Routed ks evs
  Routed ks (content_stop index ∷ evs) = (mem index ks ≡ true) × Routed (remove_key index ks) evs
  Routed ks (content_start index kind ∷ evs) = Routed (insert_key index ks) evs
  Routed ks (ev ∷ evs) = Routed ks evs

  pub Routed-append :
      (xs ys : List (Event V)) (ks : List ℕ)
      → Routed ks xs
      → Routed (track ks xs) ys
      → Routed ks (xs ++ ys)
  unfolding track
  Routed-append [] ys ks h k = k
  Routed-append (content_delta i d ∷ xs) ys ks h k = (h.0, Routed-append xs ys ks h.1 k)
  Routed-append (content_stop i ∷ xs) ys ks h k = (h.0, Routed-append xs ys (remove_key i ks) h.1 k)
  Routed-append (content_start i kind ∷ xs) ys ks h k = Routed-append xs ys (insert_key i ks) h k
  Routed-append (ev ∷ xs) ys ks h k = Routed-append xs ys ks h k

  pub record Routes {A : Type 0} (m : Emit V A) : Type 0 where
    pub at : (s : DecodeState V) → Routed (keys s.opened) (m s).2

  pub Routes-pure : {A : Type 0} (a : A) → Routes (pure {V = V} a)
  unfolding pure
  Routes-pure a = record { at = λ s. tt }

  pub Routes-gets : {A : Type 0} (f : DecodeState V → A) → Routes (gets f)
  unfolding gets
  Routes-gets f = record { at = λ s. tt }

  pub Routes-modify : (f : DecodeState V → DecodeState V) → Routes (modify f)
  unfolding modify
  Routes-modify f = record { at = λ s. tt }

  pub Routes-emit : (ev : Event V) → ((ks : List ℕ) → Routed ks (ev ∷ [])) → Routes (emit ev)
  unfolding emit
  Routes-emit ev h = record { at = λ s. h (keys s.opened) }

  pub Routes-start_block : (index : ℕ) (kind : ContentKind V) → Routes (start_block index kind)
  unfolding start_block
  Routes-start_block i k = record { at = λ s. tt }

  pub Routes-bind :
      {A B : Type 0} (m : Emit V A) (f : A → Emit V B)
      → Tracks m
      → Routes m
      → ((a : A) → Routes (f a))
      → Routes (m >>= f)
  unfolding ◌>>=◌
  Routes-bind m f tm hm hf = record {
    at = λ s.
        Routed-append (m s).2 _ (keys s.opened) (hm.at s)
          (rw (tm.at s) at ((hf (m s).0).at (m s).1));
  }

  pub Routes-then :
      {B : Type 0} (m : Emit V (Unit {0})) (k : Emit V B)
      → Tracks m
      → Routes m
      → Routes k
      → Routes (m >> k)
  unfolding ◌>>◌
  Routes-then m k tm hm hk = Routes-bind m (λ _. k) tm hm (λ _. hk)

  pub Routes-if :
      {A : Type 0} (b : Bool) (m n : Emit V A)
      → (b ≡ true → Routes m)
      → (b ≡ false → Routes n)
      → Routes (if b then m else n)
  Routes-if true m n hm hn = hm refl
  Routes-if false m n hm hn = hn refl
