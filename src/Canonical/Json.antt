-- ===== src/Canonical/Json.antt =====
-- What the program uses of `serde_json`, which it does not implement: the type of values and the
-- operations on it, and the documented laws that some results rest on.
use brazen.Base.{ℕ, ◌<◌, ◌^◌, Bool, false, List, [], ◌∷◌, Option, none, some, ◌≡◌, refl, Bytes}
unfoldable pub use brazen.Base.Assoc.{has_key, value_at}
use brazen.Base.Result.{Result}

pub record Json : Type 1 where
  pub Value : Type 0
  pub null : Value
  pub string : Bytes → Value
  pub number : ℕ → Value
  pub array : List Value → Value
  -- the map that holds, for each key, its first value
  pub object : List (Bytes × Value) → Value
  -- `v["key"]` and `v[0]`, `Null` where there is no such member
  pub at_key : Value → Bytes → Value
  pub at_index : Value → ℕ → Value
  -- `v["key"] = x`, the value that is left; `none` is the panic on a value that is neither an
  -- object nor null
  pub set_key : Value → Bytes → Value → Option Value
  -- `v.get("key")`
  pub get : Value → Bytes → Option Value
  pub as_str : Value → Option Bytes
  pub as_u64 : Value → Option ℕ
  pub as_bool : Value → Option Bool
  pub as_array : Value → Option (List Value)
  pub as_object : Value → Option (List (Bytes × Value))
  pub is_object : Value → Bool
  -- `from_slice`, with the text of its error
  pub from_slice : Bytes → Result Bytes Value
  pub to_string : Value → Bytes

-- Accessors on values that the program builds.
pub record JsonLaws (j : Json) : Type 0 where
  pub as_str-string : (s : Bytes) → j.as_str (j.string s) ≡ some s
  pub as_str-object : (m : List (Bytes × j.Value)) → j.as_str (j.object m) ≡ none
  pub as_object-string : (s : Bytes) → j.as_object (j.string s) ≡ none
  pub as_object-single :
      (k : Bytes) (v : j.Value) → j.as_object (j.object ((k, v) ∷ [])) ≡ some ((k, v) ∷ [])
  -- An object holds what it is made of, in any order.
  pub as_object-value_at :
      (m : List (Bytes × j.Value)) (key : Bytes)
      → (members : List (Bytes × j.Value)) × (j.as_object (j.object m) ≡ some members)
        × (value_at key members ≡ value_at key m)
  pub at_key-object :
      (k : Bytes) (v : j.Value) (m : List (Bytes × j.Value))
      → has_key k m ≡ false
      → j.at_key (j.object ((k, v) ∷ m)) k ≡ v
  pub at_key-value_at :
      (m : List (Bytes × j.Value)) (key : Bytes) (v : j.Value)
      → value_at key m ≡ some v
      → j.at_key (j.object m) key ≡ v
  pub at_index-array : (v : j.Value) (vs : List j.Value) → j.at_index (j.array (v ∷ vs)) 0 ≡ v
  pub set_key-string : (s k : Bytes) (v : j.Value) → j.set_key (j.string s) k v ≡ none
  pub as_u64-number : (n : ℕ) → n < 2 ^ 64 → j.as_u64 (j.number n) ≡ some n

pub at_key-single :
    {j : Json} (laws : JsonLaws j) (k : Bytes) (v : j.Value)
    → j.at_key (j.object ((k, v) ∷ [])) k ≡ v
unfolding has_key
at_key-single laws k v = laws.at_key-object k v [] refl
