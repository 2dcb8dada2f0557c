-- ===== src/Config/Resolve/Routing.antt =====
-- src/config/resolve/mod.rs: the choice of the provider row.
use brazen.Base.{
  Bool, true, false, List, [], ◌∷◌, ◌++◌, Option, none, some, Bytes, or_else, ◌≡◌, ◌⊎◌, inl, inr,
  refl, ap, if◌then◌else◌,
}
use brazen.Base.Result.{Result, ok, err}
use brazen.Auth.Credentials.{CredStore}
use brazen.Canonical.Model.{CachedModels}
use brazen.Config.Errors.{ConfigError, no_provider}
use brazen.Config.Partial.{PartialProvider, PartialConfig}
use brazen.Config.Row.{ok_or}
use brazen.Config.Resolve.{routable, row_claims, cache_places, table, find_row, hit, route}

module _ {V : Type 0} where
  -- No row passes the test.
  abbrev pub None : (Bytes → PartialProvider V → Bool) → List (Bytes × PartialProvider V) → Type 0
  None test [] = Unit
  None test ((name, row) ∷ rows) = (test name row ≡ false) × None test rows

  -- The row is the first one that passes the test.
  abbrev pub First :
      (Bytes → PartialProvider V → Bool)
      → Bytes
      → PartialProvider V
      → List (Bytes × PartialProvider V)
      → Type 0
  First test name row rows =
      (before after : List (Bytes × PartialProvider V)) × (rows ≡ before ++ (name, row) ∷ after)
      × None test before
      × (test name row ≡ true)

  abbrev Finds :
      (Bytes → PartialProvider V → Bool)
      → Option (Bytes × PartialProvider V)
      → List (Bytes × PartialProvider V)
      → Type 0
  Finds test none rows = None test rows
  Finds test (some (name, row)) rows = First test name row rows

  first-here :
      (test : Bytes → PartialProvider V → Bool) (b : Bool) (name : Bytes) (row : PartialProvider V)
      (rows : List (Bytes × PartialProvider V))
      → (found : Option (Bytes × PartialProvider V)) → test name row ≡ b
      → Finds test found rows
      → Finds test (if b then some (name, row) else found) ((name, row) ∷ rows)
  first-here test true name row rows found e f = ([], rows, refl, tt, e)
  first-here test false name row rows none e f = (e, f)
  first-here test false name row rows (some (n, r)) e (before, after, split, none_before, here) =
      ((name, row) ∷ before, after, ap (◌∷◌ (name, row)) split, (e, none_before), here)

  find_row-Finds :
      (test : Bytes → PartialProvider V → Bool) (rows : List (Bytes × PartialProvider V))
      → Finds test (find_row test rows) rows
  unfolding find_row
  find_row-Finds test [] = tt
  find_row-Finds test ((name, row) ∷ rows) =
      first-here test (test name row) name row rows (find_row test rows) refl
        (find_row-Finds test rows)

  -- Every row of the table is routable.
  abbrev pub All : (Bytes → PartialProvider V → Bool) → List (Bytes × PartialProvider V) → Type 0
  All test [] = Unit
  All test ((name, row) ∷ rows) = (test name row ≡ true) × All test rows

  kept-All :
      (test : Bytes → PartialProvider V → Bool) (b : Bool) (name : Bytes) (row : PartialProvider V)
      (rows : List (Bytes × PartialProvider V))
      → test name row ≡ b
      → All test rows
      → All test (if b then (name, row) ∷ rows else rows)
  kept-All test true name row rows e all = (e, all)
  kept-All test false name row rows e all = all

  table-All :
      (key : Option Bytes) (store : CredStore) (rows : List (Bytes × PartialProvider V))
      → All (routable key store) (table key store rows)
  unfolding table
  table-All key store [] = tt
  table-All key store ((name, row) ∷ rows) =
      kept-All (routable key store) (routable key store name row) name row _ refl
        (table-All key store rows)

  -- What the routing of a model may answer: the first row of the table that claims it; where none
  -- does, the first one whose cache places it; else there is no provider.
  abbrev pub Routes :
      (Bytes → Option CachedModels)
      → Bytes
      → List (Bytes × PartialProvider V)
      → Result ConfigError (Bytes × PartialProvider V)
      → Type 0
  Routes cache model rows (ok (name, row)) =
      First (λ n r. row_claims model r) name row rows
      ⊎ (None (λ n r. row_claims model r) rows
          × First (λ n r. cache_places V cache n model) name row rows)
  Routes cache model rows (err e) =
      (e ≡ no_provider)
      × None (λ n r. row_claims model r) rows
      × None (λ n r. cache_places V cache n model) rows

  hit-Routes :
      (cache : Bytes → Option CachedModels) (model : Bytes)
      (rows : List (Bytes × PartialProvider V))
      → (claim place : Option (Bytes × PartialProvider V))
      → Finds (λ n r. row_claims model r) claim rows
      → Finds (λ n r. cache_places V cache n model) place rows
      → Routes cache model rows (ok_or (or_else claim place) no_provider)
  hit-Routes cache model rows none none c p = (refl, c, p)
  hit-Routes cache model rows none (some (n, r)) c p = inr (c, p)
  hit-Routes cache model rows (some (n, r)) place c p = inl c

  -- Without an explicit name, a routing model goes to the first row of the table that claims it, to
  -- the first one whose cached list places it only where no row claims it, and nowhere else; the
  -- table holds rows that are routable only.
  pub route-Routes :
      {F : Type 0} (self : PartialConfig V F) (model : Bytes) (cache : Bytes → Option CachedModels)
      (store : CredStore)
      → self.provider ≡ none
      → Routes cache model
          (table self.api_key store self.providers)
          (route self (some model) cache store)
        × All (routable self.api_key store) (table self.api_key store self.providers)
  unfolding route hit
  route-Routes self model cache store unnamed =
      let rows = table self.api_key store self.providers in
      (
        rw unnamed (
            hit-Routes cache model rows _ _ (find_row-Finds (λ n r. row_claims model r) rows)
              (find_row-Finds (λ n r. cache_places V cache n model) rows)),
        table-All self.api_key store self.providers,
      )
