-- ===== src/Protocol/Synth.antt =====
-- src/protocol/synth.rs: the block mechanics of the dialects whose wire has no block events.
pub mod Drain
use brazen.Base.{
  ℕ, ◌%◌, ◌^◌, Bool, true, false, List, [], ◌∷◌, Option, none, some, Bytes, length, if◌then◌else◌,
}
use brazen.Base.Dict.{Dict, keys, sort}
use brazen.Canonical.Event.{ContentKind, text, thinking}
use brazen.Protocol.State.{
  OpenBlock, DecodeState, Emit, pure, ◌>>=◌, ◌>>◌, gets, start_block, stop_block,
}

module _ {V : Type 0} where
  -- `state.open.len() as u32`
  unfoldable pub next_index : DecodeState V → ℕ
  next_index s = length s.opened % 2 ^ 32

  -- `iter().find(|(_, b)| b.kind == kind)`, the comparison with `kind` as a test. The map has at
  -- most one such block, so the order of iteration does not matter.
  unfoldable pub find_kind : (ContentKind V → Bool) → Dict (OpenBlock V) → Option ℕ
  find_kind same [] = none
  find_kind same ((i, b) ∷ m) = if same b.kind then some i else find_kind same m

  -- What `open_lazy` does when it has, or has not, found the block.
  unfoldable pub open_found : ContentKind V → Option ℕ → Emit V ℕ
  open_found kind (some i) = pure i
  open_found kind none = do i ← gets next_index; start_block i kind; pure i

  unfoldable pub open_lazy : (ContentKind V → Bool) → ContentKind V → Emit V ℕ
  open_lazy same kind = do found ← gets (λ s. find_kind same s.opened); open_found kind found

  abbrev is_text : ContentKind V → Bool
  is_text text = true
  is_text _ = false

  -- Equality with `Thinking { id: None }`.
  abbrev is_bare_thinking : ContentKind V → Bool
  is_bare_thinking (thinking none) = true
  is_bare_thinking _ = false

  unfoldable pub open_text : Emit V ℕ
  open_text = open_lazy is_text text

  unfoldable pub open_thinking : Emit V ℕ
  open_thinking = open_lazy is_bare_thinking (thinking none)

  -- The loop of `drain`.
  unfoldable pub stop_blocks : List ℕ → Emit V (Unit {0})
  stop_blocks [] = pure tt
  stop_blocks (index ∷ rest) = stop_block index >> stop_blocks rest

  -- `drain`: the keys are collected and sorted, then each block is removed and stopped.
  unfoldable pub drain : Emit V (Unit {0})
  drain = do open_keys ← gets (λ s. sort (keys s.opened)); stop_blocks open_keys
