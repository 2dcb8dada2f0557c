-- ===== src/Config/Partial/Fold.antt =====
-- src/config/partial/: the laws of the fold of configuration layers.
use brazen.Base.{
  List, [], ◌∷◌, Option, none, some, Bytes, or_else_assoc, or_else-none, ◌≡◌, refl, ap,
}
use brazen.Base.Assoc.{or_map, or_map_assoc}
use brazen.Config.Partial.Rows.{merge_providers_assoc}
use brazen.Config.Partial.{
  PartialIngress, or_partial_ingress, or_ingress, PartialProvider, PartialConfig, take_row,
  merge_providers, or_config, no_config,
}

or_partial_ingress_assoc :
    (a b c : PartialIngress)
    → or_partial_ingress (or_partial_ingress a b) c ≡ or_partial_ingress a (or_partial_ingress b c)
unfolding or_partial_ingress
or_partial_ingress_assoc a b c = simp (or_else_assoc, or_map_assoc)

or_ingress_assoc :
    (a b c : Option PartialIngress) → or_ingress (or_ingress a b) c ≡ or_ingress a (or_ingress b c)
unfolding or_ingress
or_ingress_assoc (some a) (some b) (some c) = ap some (or_partial_ingress_assoc a b c)
or_ingress_assoc (some a) (some b) none = refl
or_ingress_assoc (some a) none c = refl
or_ingress_assoc none (some b) c = refl
or_ingress_assoc none none c = refl

or_ingress-none : (a : Option PartialIngress) → or_ingress a none ≡ a
unfolding or_ingress
or_ingress-none (some a) = refl
or_ingress-none none = refl

-- The fold of three layers may be grouped either way, in every field: scalars, the table of rows
-- with its order, the ingress table and the free keys.
pub or_config_assoc :
    {V F : Type 0} (a b c : PartialConfig V F)
    → or_config (or_config a b) c ≡ or_config a (or_config b c)
unfolding or_config
or_config_assoc a b c = simp (or_else_assoc, or_map_assoc, or_ingress_assoc, merge_providers_assoc)

merge_providers-empty :
    {V : Type 0} (hi : List (Bytes × PartialProvider V)) → merge_providers hi [] ≡ hi
unfolding merge_providers take_row
merge_providers-empty [] = refl
merge_providers-empty ((n, row) ∷ hi) = ap (◌∷◌ (n, row)) (merge_providers-empty hi)

-- A missing lower layer changes nothing.
pub or_config-no_config : {V F : Type 0} (a : PartialConfig V F) → or_config a no_config ≡ a
unfolding or_config or_map
or_config-no_config a = simp (or_else-none, or_ingress-none, merge_providers-empty)
