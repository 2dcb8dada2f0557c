-- ===== src/Base/Assoc.antt =====
-- Maps keyed by strings (`serde_json::Map`, `BTreeMap<String, V>`) as lists of entries, read at the
-- first entry of a key.
use mathlib.Core.Path.{◌≡◌, refl, sym, ap, ◌∙◌}
use mathlib.Core.Bool.{Bool, false, ◌||◌}
use mathlib.Core.List.{List, [], ◌∷◌, ◌++◌}
use mathlib.Core.Option.{Option, none, some}
use native.Mathlib.Omega.{arith}
use brazen.Base.Lists.{Bytes, bytes_eq, bytes_eq_iff}
use brazen.Base.Tests.{if◌then◌else◌}

module _ {V : Type 0} where
  -- `contains_key`
  unfoldable pub has_key : Bytes → List (Bytes × V) → Bool
  has_key k [] = false
  has_key k ((key, v) ∷ m) = bytes_eq key k || has_key k m

  -- The first value of a key.
  unfoldable pub value_at : Bytes → List (Bytes × V) → Option V
  value_at key [] = none
  value_at key ((k, v) ∷ m) = let rest = value_at key m in if bytes_eq k key then some v else rest

  -- `remove`, the map that is left
  unfoldable pub remove_key : Bytes → List (Bytes × V) → List (Bytes × V)
  remove_key key [] = []
  remove_key key ((k, v) ∷ m) =
      let rest = remove_key key m in if bytes_eq k key then rest else (k, v) ∷ rest

  -- `entry(key).or_insert(value)`
  unfoldable pub or_insert : List (Bytes × V) → Bytes → V → List (Bytes × V)
  unfolding has_key
  or_insert m key v = if has_key key m then m else m ++ (key, v) ∷ []

  -- `or_map` of src/config/partial/mod.rs: what `hi` lacks comes from `lo`.
  unfoldable pub or_map : List (Bytes × V) → List (Bytes × V) → List (Bytes × V)
  or_map hi [] = hi
  or_map hi ((key, v) ∷ lo) = or_map (or_insert hi key v) lo

  has_key-append :
      (k : Bytes) (m n : List (Bytes × V)) → has_key k (m ++ n) ≡ (has_key k m || has_key k n)
  unfolding has_key
  has_key-append k [] n = refl
  has_key-append k ((key, v) ∷ m) n = ground (arith, has_key-append k m n)

  or_map-append :
      (hi lo more : List (Bytes × V)) → or_map hi (lo ++ more) ≡ or_map (or_map hi lo) more
  unfolding or_map
  or_map-append hi [] more = refl
  or_map-append hi ((key, v) ∷ lo) more = or_map-append (or_insert hi key v) lo more

  -- What is there once an entry is ensured.
  has_key-or_insert :
      (k : Bytes) (m : List (Bytes × V)) (key : Bytes) (v : V)
      → has_key k (or_insert m key v) ≡ (has_key k m || bytes_eq key k)
  unfolding or_insert has_key
  has_key-or_insert k m key v =
      grind (arith, has_key-append k m ((key, v) ∷ []), bytes_eq_iff key k)

  has_key-or_map :
      (k : Bytes) (hi lo : List (Bytes × V))
      → has_key k (or_map hi lo) ≡ (has_key k hi || has_key k lo)
  unfolding or_map has_key
  has_key-or_map k hi [] = ground arith
  has_key-or_map k hi ((key, v) ∷ lo) =
      ground (arith, has_key-or_map k (or_insert hi key v) lo, has_key-or_insert k hi key v)

  or_map-or_insert :
      (hi m : List (Bytes × V)) (key : Bytes) (v : V)
      → or_map hi (or_insert m key v) ≡ or_insert (or_map hi m) key v
  unfolding or_insert or_map
  or_map-or_insert hi m key v =
      ground (arith, has_key-or_map key hi m, or_map-append hi m ((key, v) ∷ []))

  pub or_map_assoc : (a b c : List (Bytes × V)) → or_map (or_map a b) c ≡ or_map a (or_map b c)
  unfolding or_map
  or_map_assoc a b [] = refl
  or_map_assoc a b ((key, v) ∷ c) =
      ap (λ m. or_map m c) (sym (or_map-or_insert a b key v)) ∙ or_map_assoc a (or_insert b key v) c

  pub or_map-none : (m : List (Bytes × V)) → or_map m [] ≡ m
  unfolding or_map
  or_map-none m = refl
