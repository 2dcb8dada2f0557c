-- ===== src/Base/Dict.antt =====
-- Dictionaries keyed by numbers (`HashMap<u32, V>`, `BTreeMap<u32, V>`) as association lists with
-- one entry for a key, and the set of their keys.
use Prim.Native.Nat.{ℕ, ◌≤◌}
use mathlib.Core.Path.{◌≡◌, refl}
use mathlib.Core.Logic.{inl, inr}
use mathlib.Core.Bool.{Bool, true, false, ◌||◌}
use mathlib.Core.List.{List, [], ◌∷◌}
use mathlib.Core.Option.{Option, none, some}
use native.Mathlib.Omega.{arith}
use brazen.Base.Tests.{◌==◌, leb, if◌then◌else◌, Bool-cases}

abbrev pub Dict {ℓ} : Type ℓ → Type ℓ
Dict V = List (ℕ × V)

module _ {ℓ} {V : Type ℓ} where
  unfoldable pub get : ℕ → Dict V → Option V
  get k [] = none
  get k ((j, v) ∷ m) = if j == k then some v else get k m

  unfoldable pub insert : ℕ → V → Dict V → Dict V
  insert k v [] = (k, v) ∷ []
  insert k v ((j, w) ∷ m) = if j == k then (k, v) ∷ m else (j, w) ∷ insert k v m

  unfoldable pub remove : ℕ → Dict V → Dict V
  remove k [] = []
  remove k ((j, w) ∷ m) = let rest = remove k m in if j == k then rest else (j, w) ∷ rest

  unfoldable pub keys : Dict V → List ℕ
  keys [] = []
  keys ((j, w) ∷ m) = j ∷ keys m

-- The same on sets of keys.
unfoldable pub mem : ℕ → List ℕ → Bool
mem k [] = false
mem k (j ∷ ks) = j == k || mem k ks

unfoldable pub insert_key : ℕ → List ℕ → List ℕ
insert_key k [] = k ∷ []
insert_key k (j ∷ ks) = if j == k then k ∷ ks else j ∷ insert_key k ks

unfoldable pub remove_key : ℕ → List ℕ → List ℕ
remove_key k [] = []
remove_key k (j ∷ ks) = let rest = remove_key k ks in if j == k then rest else j ∷ rest

unfoldable pub remove_keys : List ℕ → List ℕ → List ℕ
remove_keys [] open_keys = open_keys
remove_keys (k ∷ ks) open_keys = remove_keys ks (remove_key k open_keys)

-- `sort_unstable` on a `Vec<u32>`.
unfoldable pub insert_sorted : ℕ → List ℕ → List ℕ
insert_sorted x [] = x ∷ []
insert_sorted x (y ∷ ys) = if leb x y then x ∷ y ∷ ys else y ∷ insert_sorted x ys

unfoldable pub sort : List ℕ → List ℕ
unfolding insert_sorted
sort [] = []
sort (x ∷ xs) = insert_sorted x (sort xs)

module _ {ℓ} {V : Type ℓ} where
  pub keys-insert : (k : ℕ) (v : V) (m : Dict V) → keys (insert k v m) ≡ insert_key k (keys m)
  unfolding keys insert insert_key
  keys-insert k v [] = refl
  keys-insert k v ((j, w) ∷ m) = ground (arith, keys-insert k v m)

  pub keys-remove : (k : ℕ) (m : Dict V) → keys (remove k m) ≡ remove_key k (keys m)
  unfolding keys remove remove_key
  keys-remove k [] = refl
  keys-remove k ((j, w) ∷ m) = ground (arith, keys-remove k m)

  pub mem-keys : (k : ℕ) (m : Dict V) (v : V) → get k m ≡ some v → mem k (keys m) ≡ true
  unfolding get keys mem
  mem-keys k [] v h = cc
  mem-keys k ((j, w) ∷ m) v h = ground (arith, mem-keys k m v)

  pub remove-get_none : (k : ℕ) (m : Dict V) → get k m ≡ none → remove k m ≡ m
  unfolding get remove
  remove-get_none k [] h = refl
  remove-get_none k ((j, w) ∷ m) h = ground (arith, remove-get_none k m)

-- Every key of `ks` is in `open_keys`.
abbrev pub Within : List ℕ → List ℕ → Type 0
Within [] ks = Unit
Within (x ∷ xs) ks = (mem x ks ≡ true) × Within xs ks

mem-insert_sorted : (k x : ℕ) (xs : List ℕ) → mem k (insert_sorted x xs) ≡ (x == k || mem k xs)
unfolding mem insert_sorted
mem-insert_sorted k x [] = refl
mem-insert_sorted k x (y ∷ ys) = ground (arith, mem-insert_sorted k x ys)

pub mem-sort : (k : ℕ) (xs : List ℕ) → mem k (sort xs) ≡ mem k xs
unfolding sort mem
mem-sort k [] = refl
mem-sort k (x ∷ xs) = ground (arith, mem-insert_sorted k x (sort xs), mem-sort k xs)

mem-remove_key : (k j : ℕ) (ks : List ℕ) → mem k (remove_key j ks) ≡ true → mem k ks ≡ true
unfolding mem remove_key
mem-remove_key k j [] h = h
mem-remove_key k j (x ∷ ks) h = ground (arith, mem-remove_key k j ks)

not_mem-remove_key : (k : ℕ) (ks : List ℕ) → mem k (remove_key k ks) ≡ false
unfolding mem remove_key
not_mem-remove_key k [] = refl
not_mem-remove_key k (x ∷ ks) = ground (arith, not_mem-remove_key k ks)

-- A key that survives the removal of keys was none of them.
mem-remove_keys :
    (k : ℕ) (js ks : List ℕ)
    → mem k (remove_keys js ks) ≡ true
    → (mem k ks ≡ true) × (mem k js ≡ false)
unfolding remove_keys mem
mem-remove_keys k [] ks h = (h, refl)
mem-remove_keys k (j ∷ js) ks h =
    let (a, b) = mem-remove_keys k js (remove_key j ks) h in
    (mem-remove_key k j ks a, ground (arith, not_mem-remove_key k ks, a, b))

none_mem : (ks : List ℕ) → ((k : ℕ) → mem k ks ≡ false) → ks ≡ []
unfolding mem
none_mem [] h = refl
none_mem (k ∷ ks) h = ground (arith, h k)

-- Removing all the keys leaves none.
pub remove_keys-sort : (ks : List ℕ) → remove_keys (sort ks) ks ≡ []
remove_keys-sort ks = none_mem _ λ k. elim (Bool-cases (mem k (remove_keys (sort ks) ks))) [
  | inr out ↦ out
  | inl in' ↦
      let (a, b) = mem-remove_keys k (sort ks) ks in' in
      absurd (ground (arith, a, b, mem-sort k ks))
]

-- In ascending order.
abbrev pub IsSorted : List ℕ → Type 0
IsSorted [] = Unit
IsSorted (x ∷ []) = Unit
IsSorted (x ∷ y ∷ ys) = (x ≤ y) × IsSorted (y ∷ ys)

insert_sorted-IsSorted : (x : ℕ) (xs : List ℕ) → IsSorted xs → IsSorted (insert_sorted x xs)
unfolding insert_sorted
insert_sorted-IsSorted x [] h = tt
insert_sorted-IsSorted x (y ∷ []) h = ground arith
insert_sorted-IsSorted x (y ∷ z ∷ zs) h = ground (arith, insert_sorted-IsSorted x (z ∷ zs))

pub sort-IsSorted : (xs : List ℕ) → IsSorted (sort xs)
unfolding sort
sort-IsSorted [] = tt
sort-IsSorted (x ∷ xs) = insert_sorted-IsSorted x (sort xs) (sort-IsSorted xs)
