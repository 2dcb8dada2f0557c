-- ===== src/Config/Resolve/Checked.antt =====
-- src/config/resolve/mod.rs: what a resolved configuration has passed.
use mathlib.Core.Path.{subst}
use brazen.Base.{
  str, ℕ, ◌<◌, ◌≤◌, ◌^◌, ◌-◌, Bool, true, false, ltb, leb, ◌&&◌, List, [], ◌∷◌, Option, none, some,
  Bytes, is_some, or_else, ◌≡◌, refl, arith, if◌then◌else◌,
}
use brazen.Base.Assoc.{value_at}
use brazen.Base.Result.{ok, err, on_ok, ok_injective}
use brazen.Auth.Credentials.{CredStore}
use brazen.Canonical.Json.{Json}
use brazen.Canonical.Model.{CachedModels}
use brazen.Config.Partial.{PartialProvider, PartialConfig}
use brazen.Config.Provider.{is_no_auth}
use brazen.Config.Row.{Floats, bad, complete, taken, positive_u32, take_u32, take_f32, take_bool}
use brazen.Config.Row.Complete.{on_pass, complete-IsComplete}
use brazen.Config.Resolve.{
  ResolvedConfig, is_zero, some_and, has_empty_prefix, check_prefixes, check_scalars, route,
  nonempty_model, resolve_row, into_resolved,
}

-- A positive number of 32 bits.
abbrev pub InRange : Option ℕ → Type 0
InRange none = Unit
InRange (some n) = (0 < n) × (n ≤ 2 ^ 32 - 1)

-- No row of the list has an empty prefix.
abbrev pub NoEmpty : {V : Type 0} → List (Bytes × PartialProvider V) → Type 0
NoEmpty [] = Unit
NoEmpty ((name, row) ∷ rows) = (has_empty_prefix row ≡ false) × NoEmpty rows

check_prefixes-NoEmpty :
    {V : Type 0} (rows : List (Bytes × PartialProvider V)) (b : Bool)
    → check_prefixes rows ≡ ok b
    → NoEmpty rows
unfolding check_prefixes
check_prefixes-NoEmpty [] b h = tt
check_prefixes-NoEmpty ((name, row) ∷ rows) b h =
    on_pass (has_empty_prefix row) _ (check_prefixes rows) h
      λ e rest. (e, check_prefixes-NoEmpty rows b rest)

ranged :
    (n : ℕ) (b : Bool) → (ltb 0 n && leb n (2 ^ 32 - 1)) ≡ b → InRange (if b then some n else none)
ranged n true h = (ground arith, ground arith)
ranged n false h = tt

positive_u32-InRange : (o : Option ℕ) → InRange (positive_u32 o)
positive_u32-InRange none = tt
positive_u32-InRange (some n) = ranged n _ refl

taken_value :
    (o : Option ℕ) (key detail : Bytes) (n : Option ℕ)
    → InRange o
    → elim o [ some a ↦ ok (some a) | none ↦ err (bad key detail) ] ≡ ok n
    → InRange n
taken_value none key detail n r h = absurd cc
taken_value (some m) key detail n r h = let same : some m ≡ n = cc in subst InRange same r

taken-InRange :
    (V : Type 0) (read : V → Option ℕ) (key detail : Bytes) (found : Option V) (n : Option ℕ)
    → taken (λ v. positive_u32 (read v)) key detail found ≡ ok n
    → InRange n
taken-InRange V read key detail none n h = let same : none ≡ n = cc in subst InRange same tt
taken-InRange V read key detail (some v) n h =
    taken_value (positive_u32 (read v)) key detail n (positive_u32-InRange (read v)) h

or_else-InRange :
    (own default : Option ℕ)
    → is_zero own ≡ false
    → ((n : ℕ) → own ≡ some n → n ≤ 2 ^ 32 - 1)
    → InRange default
    → InRange (or_else own default)
or_else-InRange none d z w h = h
or_else-InRange (some n) d z w h = (ground arith, w n refl)

module _ (j : Json) (floats : Floats j.Value) where
  open j use {Value, as_u64}
  open floats use {Float, is_nan}

  -- What a configuration has passed once it resolves: no row of it owns every model, the budget of
  -- tokens is a positive number of 32 bits, and the provider has the header it needs.
  pub record IsChecked (self : PartialConfig Value Float) (r : ResolvedConfig Value Float)
      : Type 0 where
    pub prefixes : NoEmpty self.providers
    pub budget : InRange r.max_tokens
    pub keyed : is_no_auth r.provider.auth ≡ false → is_some r.provider.api_header ≡ true

  abbrev Fit : ResolvedConfig Value Float → Type 0
  Fit r =
      InRange r.max_tokens
      × (is_no_auth r.provider.auth ≡ false → is_some r.provider.api_header ≡ true)

  resolve_row-Fit :
      (self : PartialConfig Value Float) (routing_model : Option Bytes) (name : Bytes)
      → (row : PartialProvider Value) (r : ResolvedConfig Value Float)
      → is_zero self.max_tokens ≡ false
      → ((n : ℕ) → self.max_tokens ≡ some n → n ≤ 2 ^ 32 - 1)
      → resolve_row j floats self routing_model name row ≡ ok r
      → Fit r
  unfolding resolve_row take_u32
  resolve_row-Fit self routing_model name row r z w h =
      on_ok (take_u32 j row.body_defaults (str "max_tokens")) _ h λ n taken_n h1.
        on_ok (take_f32 j floats row.body_defaults (str "temperature")) _ h1 λ t taken_t h2.
          on_ok (take_f32 j floats row.body_defaults (str "top_p")) _ h2 λ p taken_p h3.
            on_ok (take_bool j row.body_defaults (str "stream")) _ h3 λ s taken_s h4.
              on_ok
                (complete name (record row {
                  base_url = or_else self.base_url row.base_url;
                  body_defaults = [];
                }))
                _ h4
                λ provider done h5. subst Fit (ok_injective h5) (
                  or_else-InRange self.max_tokens n z w (
                      taken-InRange Value as_u64 _ _ (value_at (str "max_tokens") row.body_defaults)
                        n taken_n),
                  (complete-IsComplete name
                      (record row {
                        base_url = or_else self.base_url row.base_url;
                        body_defaults = [];
                      })
                      provider done).header,
                )

  -- A configuration that resolves, its own budget of 32 bits, has passed the checks of `IsChecked`,
  -- whichever layer and whichever row the values come from.
  pub into_resolved-IsChecked :
      (self : PartialConfig Value Float) (req_model : Option Bytes)
      → (cache : Bytes → Option CachedModels) (store : CredStore) (r : ResolvedConfig Value Float)
      → ((n : ℕ) → self.max_tokens ≡ some n → n ≤ 2 ^ 32 - 1)
      → into_resolved j floats self req_model cache store ≡ ok r
      → IsChecked self r
  unfolding into_resolved check_scalars
  into_resolved-IsChecked self req_model cache store r w h =
      let model = nonempty_model (or_else req_model self.model) in
      on_ok (check_scalars j floats self) _ h λ b checked h1.
        on_pass (is_zero self.max_tokens) _ _ checked λ z c1.
          on_pass (some_and is_nan self.temperature) _ _ c1 λ nan1 c2.
            on_pass (some_and is_nan self.top_p) _ _ c2 λ nan2 c3.
              on_ok (route self model cache store) _ h1 λ picked routed h2.
                let (budget, keyed) = resolve_row-Fit self model picked.0 picked.1 r z w h2 in
                record {
                  prefixes = check_prefixes-NoEmpty self.providers b c3;
                  budget = budget;
                  keyed = keyed;
                }
