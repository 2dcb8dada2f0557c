-- ===== src/Config/Partial/Rows.antt =====
-- src/config/partial/mod.rs: the table of rows under the fold, read through the row of a name and
-- the table without it.
use brazen.Base.{
  Bool, true, false, ◌&&◌, List, [], ◌∷◌, Option, none, some, Bytes, bytes_eq, bytes_eq_iff,
  bytes_eq_comm, or_else_assoc, ◌≡◌, refl, sym, ap, ◌∙◌, arith, Bool-cases, inl, inr, if◌then◌else◌,
}
use brazen.Base.Assoc.{or_map_assoc, value_at}
use brazen.Config.Partial.{PartialProvider, or_provider, merged, left, take_row, merge_providers}

and_assoc : (a b c : Bool) → (a && b) && c ≡ a && (b && c)
and_assoc true b c = refl
and_assoc false b c = refl

module _ {V : Type 0} where
  pub or_provider_assoc :
      (a b c : PartialProvider V)
      → or_provider (or_provider a b) c ≡ or_provider a (or_provider b c)
  unfolding or_provider
  or_provider_assoc a b c = simp (or_else_assoc, or_map_assoc, and_assoc)

  -- The table without the first row of a name.
  unfoldable pub without :
      List (Bytes × PartialProvider V) → Bytes → List (Bytes × PartialProvider V)
  without [] name = []
  without ((n, row) ∷ rows) name =
      let rest = without rows name in if bytes_eq n name then rows else (n, row) ∷ rest

  -- A row with what another one may add.
  abbrev pub with_lower : PartialProvider V → Option (PartialProvider V) → PartialProvider V
  with_lower row none = row
  with_lower row (some lower) = or_provider row lower

  abbrev pub or_row :
      Option (PartialProvider V) → Option (PartialProvider V) → Option (PartialProvider V)
  or_row none lower = lower
  or_row (some row) lower = some (with_lower row lower)

  with_lower_assoc :
      (r : PartialProvider V) (b c : Option (PartialProvider V))
      → with_lower (with_lower r b) c ≡ with_lower r (or_row b c)
  with_lower_assoc r none c = refl
  with_lower_assoc r (some b) none = refl
  with_lower_assoc r (some b) (some c) = or_provider_assoc r b c

  abbrev taken :
      Option (PartialProvider V)
      → List (Bytes × PartialProvider V)
      → Option (PartialProvider V × List (Bytes × PartialProvider V))
  taken none rows = none
  taken (some row) rows = some (row, rows)

  take_row_lem :
      (rows : List (Bytes × PartialProvider V)) (name : Bytes)
      → take_row rows name ≡ taken (value_at name rows) (without rows name)
  unfolding take_row value_at without
  take_row_lem [] name = refl
  take_row_lem ((n, row) ∷ rows) name = ground (arith, take_row_lem rows name)

  without-absent :
      (rows : List (Bytes × PartialProvider V)) (name : Bytes)
      → value_at name rows ≡ none
      → without rows name ≡ rows
  unfolding value_at without
  without-absent [] name h = refl
  without-absent ((n, row) ∷ rows) name h = ground (arith, without-absent rows name)

  rows_of :
      (name : Bytes) (row : PartialProvider V) (hi lo rest : List (Bytes × PartialProvider V))
      → (found : Option (PartialProvider V)) → (found ≡ none → rest ≡ lo)
      → Path
          (List (Bytes × PartialProvider V))
          ((name, merged row (taken found rest)) ∷ merge_providers hi (left (taken found rest) lo))
          ((name, with_lower row found) ∷ merge_providers hi rest)
  rows_of name row hi lo rest none absent =
      ap (λ l. (name, row) ∷ merge_providers hi l) (sym (absent refl))
  rows_of name row hi lo rest (some lower) absent = refl

  merge_providers-cons :
      (name : Bytes) (row : PartialProvider V) (hi lo : List (Bytes × PartialProvider V))
      → merge_providers ((name, row) ∷ hi) lo
        ≡ (name, with_lower row (value_at name lo)) ∷ merge_providers hi (without lo name)
  unfolding merge_providers
  merge_providers-cons name row hi lo =
      ap (λ t. (name, merged row t) ∷ merge_providers hi (left t lo)) (take_row_lem lo name)
      ∙ rows_of name row hi lo (without lo name) (value_at name lo) (without-absent lo name)

  value_at-without :
      (rows : List (Bytes × PartialProvider V)) (n m : Bytes)
      → bytes_eq n m ≡ false
      → value_at m (without rows n) ≡ value_at m rows
  unfolding value_at without
  value_at-without [] n m h = refl
  value_at-without ((k, row) ∷ rows) n m h =
      grind (arith, value_at-without rows n m, bytes_eq_iff k n, bytes_eq_iff k m, bytes_eq_iff n m)

  without-without :
      (rows : List (Bytes × PartialProvider V)) (n m : Bytes)
      → without (without rows n) m ≡ without (without rows m) n
  unfolding without
  without-without [] n m = refl
  without-without ((k, row) ∷ rows) n m =
      grind (arith, without-without rows n m, bytes_eq_iff k n, bytes_eq_iff k m)

  merge_providers-nil : (lo : List (Bytes × PartialProvider V)) → merge_providers [] lo ≡ lo
  unfolding merge_providers
  merge_providers-nil lo = refl

  -- The row of a name after a merge is the two rows of that name, merged.
  pub value_at-merge_providers :
      (hi lo : List (Bytes × PartialProvider V)) (name : Bytes)
      → value_at name (merge_providers hi lo) ≡ or_row (value_at name hi) (value_at name lo)
  unfolding value_at
  value_at-merge_providers [] lo name = ap (value_at name) (merge_providers-nil lo)
  value_at-merge_providers ((n, row) ∷ hi) lo name = elim (Bool-cases (bytes_eq n name)) [
    | inl e ↦
        rw (merge_providers-cons n row hi lo, e)
          (ap (λ k. some (with_lower row (value_at k lo))) ((bytes_eq_iff n name).0 e))
    | inr e ↦
        rw (merge_providers-cons n row hi lo, e)
          (value_at-merge_providers hi (without lo n) name
            ∙ ap (or_row (value_at name hi)) (value_at-without lo n name e))
  ]

  without-merge_providers :
      (hi lo : List (Bytes × PartialProvider V)) (name : Bytes)
      → without (merge_providers hi lo) name ≡ merge_providers (without hi name) (without lo name)
  unfolding without
  without-merge_providers [] lo name =
      ap (λ rows. without rows name) (merge_providers-nil lo)
      ∙ sym (merge_providers-nil (without lo name))
  without-merge_providers ((n, row) ∷ hi) lo name = elim (Bool-cases (bytes_eq n name)) [
    | inl e ↦
        rw (merge_providers-cons n row hi lo, e)
          (ap (λ k. merge_providers hi (without lo k)) ((bytes_eq_iff n name).0 e))
    | inr e ↦
        rw
          (
            merge_providers-cons n row hi lo,
            e,
            merge_providers-cons n row (without hi name) (without lo name),
            without-merge_providers hi (without lo n) name,
            without-without lo n name,
            value_at-without lo name n (bytes_eq_comm name n ∙ e),
          )
          refl
  ]

  -- The merge of three tables may be grouped either way, repeated names included.
  pub merge_providers_assoc :
      (a b c : List (Bytes × PartialProvider V))
      → merge_providers (merge_providers a b) c ≡ merge_providers a (merge_providers b c)
  merge_providers_assoc [] b c =
      ap (λ rows. merge_providers rows c) (merge_providers-nil b)
      ∙ sym (merge_providers-nil (merge_providers b c))
  merge_providers_assoc ((n, row) ∷ a) b c =
      rw
        (
          merge_providers-cons n row a b,
          merge_providers-cons n row a (merge_providers b c),
          merge_providers-cons n (with_lower row (value_at n b)) (merge_providers a (without b n))
              c,
          value_at-merge_providers b c n,
          without-merge_providers b c n,
          with_lower_assoc row (value_at n b) (value_at n c),
          merge_providers_assoc a (without b n) (without c n),
        )
        refl
