-- ===== src/Protocol/Extra.antt =====
-- src/protocol/json.rs, `fold_extra`: what the caller passes through beside the typed fields. A JSON
-- map is the list of its entries.
pub mod Typed
use brazen.Base.{Bool, List, [], ◌∷◌, ◌++◌, Option, none, some, Bytes, bytes_eq, if◌then◌else◌}
use brazen.Canonical.Json.{Json}

module _ {V : Type 0} where
  -- `entry(k).or_insert(v)`
  unfoldable pub or_insert : List (Bytes × V) → Bytes → V → List (Bytes × V)
  or_insert [] k v = (k, v) ∷ []
  or_insert ((key, w) ∷ m) k v =
      let rest = or_insert m k v in if bytes_eq key k then (key, w) ∷ m else (key, w) ∷ rest

  unfoldable pub fill : List (Bytes × V) → List (Bytes × V) → List (Bytes × V)
  unfolding or_insert
  fill dst [] = dst
  fill dst ((k, v) ∷ src) = fill (or_insert dst k v) src

module _ (j : Json) where
  open j use {Value, object, as_object}

  abbrev pub fill_objects :
      Value → Option (List (Bytes × Value)) → Option (List (Bytes × Value)) → Value
  fill_objects slot (some dst) (some src) = object (fill dst src)
  fill_objects slot _ _ = slot

  -- The occupied entry: two objects merge one level.
  unfoldable pub merge : Value → Value → Value
  unfolding fill
  merge slot v = fill_objects slot (as_object slot) (as_object v)

  unfoldable pub fold_one : List (Bytes × Value) → Bytes → Value → List (Bytes × Value)
  unfolding merge
  fold_one [] k v = (k, v) ∷ []
  fold_one ((key, w) ∷ m) k v =
      let rest = fold_one m k v in if bytes_eq key k then (key, merge w v) ∷ m else (key, w) ∷ rest

  unfoldable pub fold_extra : List (Bytes × Value) → List (Bytes × Value) → List (Bytes × Value)
  unfolding fold_one
  fold_extra body [] = body
  fold_extra body ((k, v) ∷ extra) = fold_extra (fold_one body k v) extra
