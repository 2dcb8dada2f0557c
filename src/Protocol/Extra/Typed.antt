-- ===== src/Protocol/Extra/Typed.antt =====
-- src/protocol/json.rs: the typed fields beside the passed-through ones.
use brazen.Base.{
  List, [], ◌∷◌, none, some, Bytes, bytes_eq, ◌≡◌, refl, ap, ◌∙◌, ◌⊎◌, inl, inr, Bool-cases,
  Option-cases,
}
use brazen.Canonical.Json.{Json, JsonLaws, value_at}
use brazen.Protocol.Extra.{or_insert, fill, merge, fold_one, fold_extra}

module _ {V : Type 0} where
  value_at-or_insert :
      (m : List (Bytes × V)) (k key : Bytes) (v w : V)
      → value_at key m ≡ some w
      → value_at key (or_insert m k v) ≡ some w
  unfolding value_at or_insert
  value_at-or_insert [] k key v w h = cc
  value_at-or_insert ((x, y) ∷ m) k key v w h = elim (Bool-cases (bytes_eq x k)) [
    | inl e ↦ rw e h
    | inr e ↦ elim (Bool-cases (bytes_eq x key)) [
      | inl f ↦ rw (e, f) (rw f at h)
      | inr f ↦ rw (e, f) (value_at-or_insert m k key v w (rw f at h))
    ]
  ]

  value_at-fill :
      (src dst : List (Bytes × V)) (key : Bytes) (w : V)
      → value_at key dst ≡ some w
      → value_at key (fill dst src) ≡ some w
  unfolding fill
  value_at-fill [] dst key w h = h
  value_at-fill ((k, v) ∷ src) dst key w h =
      value_at-fill src (or_insert dst k v) key w (value_at-or_insert dst k key v w h)

module _ (j : Json) where
  open j use {Value, object, as_object}

  -- A field that is there is kept or merged.
  value_at-fold_one :
      (m : List (Bytes × Value)) (k field : Bytes) (v w : Value)
      → value_at field m ≡ some w
      → (value_at field (fold_one j m k v) ≡ some w)
        ⊎ (value_at field (fold_one j m k v) ≡ some (merge j w v))
  unfolding value_at fold_one
  value_at-fold_one [] k field v w h = cc
  value_at-fold_one ((x, y) ∷ m) k field v w h = elim (Bool-cases (bytes_eq x field)) [
    | inl f ↦
        let same : y ≡ w = let found : some y ≡ some w = rw f at h in cc in
        elim (Bool-cases (bytes_eq x k)) [
          | inl e ↦ inr (rw (e, f) (ap (λ z. some (merge j z v)) same))
          | inr e ↦ inl (rw (e, f) (ap some same))
        ]
    | inr f ↦ elim (Bool-cases (bytes_eq x k)) [
      | inl e ↦ inl (rw (e, f) (rw f at h))
      | inr e ↦ rw (e, f) (value_at-fold_one m k field v w (rw f at h))
    ]
  ]

  merge_scalar : (w v : Value) → as_object w ≡ none → merge j w v ≡ w
  unfolding merge
  merge_scalar w v h = rw h refl

  -- A field that was typed with a value that is no object keeps that value, whatever is passed
  -- through beside it.
  pub fold_extra_scalar :
      (extra body : List (Bytes × Value)) (field : Bytes) (w : Value)
      → value_at field body ≡ some w
      → as_object w ≡ none
      → value_at field (fold_extra j body extra) ≡ some w
  unfolding fold_extra
  fold_extra_scalar [] body field w h scalar = h
  fold_extra_scalar ((k, v) ∷ extra) body field w h scalar =
      elim (value_at-fold_one body k field v w h) [
        | inl kept ↦ fold_extra_scalar extra (fold_one j body k v) field w kept scalar
        | inr merged ↦
            fold_extra_scalar extra (fold_one j body k v) field w
              (merged ∙ ap some (merge_scalar w v scalar)) scalar
      ]

  module _ (laws : JsonLaws j) where
    merge_object :
        (w v x : Value) (dst : List (Bytes × Value)) (key : Bytes)
        → as_object w ≡ some dst
        → value_at key dst ≡ some x
        → (members : List (Bytes × Value)) × (as_object (merge j w v) ≡ some members)
          × (value_at key members ≡ some x)
    unfolding merge
    merge_object w v x dst key h k = elim (Option-cases (as_object v)) [
      | inl e ↦ (dst, rw (h, e, merge) h, k)
      | inr (src, e) ↦
          let (members, held, same) = laws.as_object-value_at (fill dst src) key in
          (members, rw (h, e, merge) held, same ∙ value_at-fill src dst key x k)
    ]

    -- A field that was typed with an object keeps every member of it, with its value, whatever is
    -- passed through beside it.
    pub fold_extra_object :
        (extra body : List (Bytes × Value)) (field key : Bytes) (w x : Value)
        (dst : List (Bytes × Value))
        → value_at field body ≡ some w
        → as_object w ≡ some dst
        → value_at key dst ≡ some x
        → (found : Value) × (members : List (Bytes × Value)) × (value_at field
              (fold_extra j body extra)
            ≡ some found)
          × (as_object found ≡ some members)
          × (value_at key members ≡ some x)
    unfolding fold_extra
    fold_extra_object [] body field key w x dst h o k = (w, dst, h, o, k)
    fold_extra_object ((y, v) ∷ extra) body field key w x dst h o k =
        elim (value_at-fold_one body y field v w h) [
          | inl kept ↦ fold_extra_object extra (fold_one j body y v) field key w x dst kept o k
          | inr merged ↦
              let (members, o', k') = merge_object w v x dst key o k in
              fold_extra_object extra (fold_one j body y v) field key (merge j w v) x members merged
                o' k'
        ]
