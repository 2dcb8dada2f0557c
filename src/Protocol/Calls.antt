-- ===== src/Protocol/Calls.antt =====
-- What the decoders of the Ollama and Google dialects share: identifiers of whole tool calls, the
-- test for an open one, and the reading of lists and counters.
use brazen.Base.{
  ℕ, zero, suc, ◌+◌, ◌/◌, ◌%◌, Bool, true, false, ◌||◌, List, [], ◌∷◌, ◌++◌, Option, none, some,
  Bytes, str, ltb,
}
use brazen.Base.Dict.{Dict}
use brazen.Canonical.Event.{ContentKind}
use brazen.Protocol.Access.{as_u32}
use brazen.Protocol.State.{OpenBlock}

-- The decimal digits of a number, at most so many.
unfoldable pub decimal : ℕ → ℕ → Bytes
decimal zero n = []
decimal (suc k) n = elim (ltb n 10) [
  | true ↦ (b'0' + n) ∷ []
  | false ↦ decimal k (n / 10) ++ (b'0' + n % 10) ∷ []
]

-- `format!("call_{index}")`; a number of 32 bits has at most ten digits.
unfoldable pub call_id : ℕ → Bytes
unfolding decimal
call_id index = str "call_" ++ decimal 10 index

module _ {V : Type 0} where
  abbrev is_tool_use : ContentKind V → Bool
  is_tool_use (ContentKind.tool_use id name) = true
  is_tool_use _ = false

  -- `values().any(…)`
  unfoldable pub has_tool : Dict (OpenBlock V) → Bool
  has_tool [] = false
  has_tool ((i, b) ∷ m) = is_tool_use b.kind || has_tool m

-- `as_array().into_iter().flatten()`
abbrev pub items_of : {V : Type 0} → Option (List V) → List V
items_of none = []
items_of (some items) = items

-- `as_u64().map(|x| x as u32)`
abbrev pub counter : Option ℕ → Option ℕ
counter none = none
counter (some n) = some (as_u32 n)
