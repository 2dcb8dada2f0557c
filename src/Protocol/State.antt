-- ===== src/Protocol/State.antt =====
-- src/protocol/frame.rs, `DecodeState`: what a decoder keeps between frames, and the actions by
-- which decoders change it and push events.
pub mod Track
pub mod Route
use brazen.Base.{ℕ, Bool, List, [], ◌∷◌, ◌++◌, Option, Bytes, true, false, none}
use brazen.Base.Dict
use brazen.Base.Dict.{Dict}
use brazen.Base.Result.{Result, ok, err}
use brazen.Canonical.Error.{CanonicalError}
use brazen.Canonical.Event.{ContentKind, Event, content_start, content_stop, error}
use brazen.Framing.Frame.{Frame, Framing}

pub record OpenBlock (V : Type 0) : Type 0 where
  pub kind : ContentKind V

pub record DecodeState (V : Type 0) : Type 0 where
  pub opened : Dict (OpenBlock V)
  pub terminated : Bool
  pub started : Bool
  pub tool_index : Dict ℕ
  pub part_index : List ((ℕ × ℕ) × ℕ)
  pub refusal : Bytes
  pub error_tag : Option Bytes

-- `DecodeState::default()`
abbrev pub initial : {V : Type 0} → DecodeState V
initial = record {
  opened = [];
  terminated = false;
  started = false;
  tool_index = [];
  part_index = [];
  refusal = [];
  error_tag = none;
}

-- What a decoder answers for a frame: its events or an error, and the state that it leaves.
abbrev pub Decode : Type 0 → Type 0
Decode V = DecodeState V → Result (CanonicalError V) (List (Event V)) × DecodeState V

-- `flatten` of src/run/events/mod.rs: an error becomes one event.
unfoldable pub flatten : {V : Type 0} → Result (CanonicalError V) (List (Event V)) → List (Event V)
flatten (ok evs) = evs
flatten (err e) = error e ∷ []

-- The part of the `Protocol` trait that the response half uses.
pub record Protocol (V : Type 0) : Type 0 where
  pub decode : Frame → Decode V
  pub decode_full : Bytes → Decode V
  pub framing : Framing

-- An action on `(&mut DecodeState, &mut Vec<Event>)`: its value, the new state, and the events that
-- it pushes.
abbrev pub Emit : Type 0 → Type 0 → Type 0
Emit V A = DecodeState V → A × DecodeState V × List (Event V)

module _ {V : Type 0} where
  unfoldable pub pure : {A : Type 0} → A → Emit V A
  pure a s = (a, s, [])

  infixl 5 ◌>>=◌ ◌>>◌
  unfoldable pub ◌>>=◌ : {A B : Type 0} → Emit V A → (A → Emit V B) → Emit V B
  ◌>>=◌ m f s = let (a, s', out) = m s in let (b, s'', later) = f a s' in (b, s'', out ++ later)

  unfoldable pub ◌>>◌ : {B : Type 0} → Emit V (Unit {0}) → Emit V B → Emit V B
  unfolding ◌>>=◌
  m >> k = m >>= λ _. k

  -- `out.push(event)`
  unfoldable pub emit : Event V → Emit V (Unit {0})
  emit ev s = (tt, s, ev ∷ [])

  unfoldable pub gets : {A : Type 0} → (DecodeState V → A) → Emit V A
  gets f s = (f s, s, [])

  unfoldable pub modify : (DecodeState V → DecodeState V) → Emit V (Unit {0})
  modify f s = (tt, f s, [])

  -- `state.open.insert(index, OpenBlock { kind })`, then the `ContentStart`.
  unfoldable pub start_block : ℕ → ContentKind V → Emit V (Unit {0})
  start_block index kind s = (
    tt,
    record s { opened = Dict.insert index (record { kind = kind }) s.opened },
    content_start index kind ∷ [],
  )

  -- `state.open.remove(&index)`, then the `ContentStop`.
  unfoldable pub stop_block : ℕ → Emit V (Unit {0})
  stop_block index s =
      (tt, record s { opened = Dict.remove index s.opened }, content_stop index ∷ [])
