-- ===== src/Config/Resolve.antt =====
-- src/config/resolve/mod.rs and src/config/resolve/table.rs: validation, the choice of the provider
-- row, and the resolved configuration. The cache is `get` of the `ModelCache` seam, where there is
-- one.
pub mod Routing
pub mod Checked
use brazen.Base.{
  ℕ, Bool, true, false, not, ◌&&◌, ◌||◌, List, [], ◌∷◌, ◌++◌, Option, none, some, Bytes, str,
  starts_with, ◌==◌, is_some, or_else, get_or, if◌then◌else◌,
}
use brazen.Base.Assoc.{has_key, value_at, remove_key, or_map}
use brazen.Base.Result.{Result, ok, err, ◌>>=◌}
use brazen.Base.Text.{is_empty}
use brazen.Auth.Credentials.{CredStore, cred_state, activates}
use brazen.Canonical.Error.{CanonicalError}
use brazen.Canonical.Json.{Json}
use brazen.Canonical.Knobs.{ReasoningEffort, ServiceTier}
use brazen.Canonical.Model.{CachedModels, Provenance, cached, verbatim, select_model}
use brazen.Canonical.Request.{Contents}
use brazen.Config.Errors.{ConfigError, no_provider, unknown_provider, bad_value}
use brazen.Config.Partial.{PartialProvider, PartialConfig, OutMode, text}
use brazen.Config.Provider.{Provider, no_auth}
use brazen.Config.Row.{Floats, bad, ok_or, refuse_if, complete, take_u32, take_f32, take_bool}

-- `ResolvedConfig` of src/config/resolved.rs
pub record ResolvedConfig (V F : Type 0) : Type 0 where
  pub provider : Provider
  pub model : Bytes
  pub model_from_cache : Bool
  pub output : OutMode
  pub thinking : Bool
  pub inline_key : Option Bytes
  pub max_tokens : Option ℕ
  pub temperature : Option F
  pub top_p : Option F
  pub reasoning : Option ReasoningEffort
  pub service_tier : Option ServiceTier
  pub image : Option Bool
  pub stream : Option Bool
  pub usage_fold_thinking : Bool
  pub timeout : Option ℕ
  pub system : Option (Contents V)
  pub extra : List (Bytes × V)

abbrev pub any_prefix : (Bytes → Bool) → Option (List Bytes) → Bool
any_prefix test none = false
any_prefix test (some []) = false
any_prefix test (some (p ∷ ps)) = test p || any_prefix test (some ps)

abbrev pub has_alias : Bytes → Option (List (Bytes × Bytes)) → Bool
has_alias model none = false
has_alias model (some aliases) = has_key model aliases

abbrev pub is_cached : {V : Type 0} → Result (CanonicalError V) (Bytes × Provenance) → Bool
is_cached (ok (id, cached)) = true
is_cached _ = false

-- `V` is the type of the details of an error.
unfoldable pub cache_places : (V : Type 0) → (Bytes → Option CachedModels) → Bytes → Bytes → Bool
unfolding select_model
cache_places V cache name model = is_cached (
    select_model {V = V} (get_or (cache name) (record { models = []; last_used = none })) model
      name)

module _ {V : Type 0} where
  -- A row that nobody named is in the table only while a credential resolves for it.
  unfoldable pub routable : Option Bytes → CredStore → Bytes → PartialProvider V → Bool
  unfolding cred_state activates
  routable inline_key store name row =
      not row.preset
      || activates (cred_state store name (get_or row.auth no_auth) row.ambient inline_key)

  unfoldable pub row_claims : Bytes → PartialProvider V → Bool
  unfolding has_key starts_with
  row_claims model row =
      has_alias model row.model_aliases || any_prefix (λ p. starts_with p model) row.model_prefixes

  -- The rows that are in the table (`table()`).
  unfoldable pub table :
      Option Bytes → CredStore → List (Bytes × PartialProvider V) → List (Bytes × PartialProvider V)
  unfolding routable
  table inline_key store [] = []
  table inline_key store ((name, row) ∷ rows) =
      let rest = table inline_key store rows in
      if routable inline_key store name row then (name, row) ∷ rest else rest

  -- `find` on the table.
  unfoldable pub find_row :
      (Bytes → PartialProvider V → Bool)
      → List (Bytes × PartialProvider V)
      → Option (Bytes × PartialProvider V)
  find_row test [] = none
  find_row test ((name, row) ∷ rows) =
      let later = find_row test rows in if test name row then some (name, row) else later

  abbrev first_row : List (Bytes × PartialProvider V) → Option (Bytes × PartialProvider V)
  first_row [] = none
  first_row (row ∷ rows) = some row

  -- The row for a routing model: the first claim, the first cache that places it, or the head.
  unfoldable pub hit :
      (Bytes → Option CachedModels)
      → Option Bytes
      → List (Bytes × PartialProvider V)
      → Option (Bytes × PartialProvider V)
  unfolding find_row row_claims cache_places
  hit cache none rows = first_row rows
  hit cache (some model) rows =
      or_else (find_row (λ name row. row_claims model row) rows)
        (find_row (λ name row. cache_places V cache name model) rows)

  abbrev named_row :
      Bytes → Option (PartialProvider V) → Result ConfigError (Bytes × PartialProvider V)
  named_row name none = err (unknown_provider name)
  named_row name (some row) = ok (name, row)

  unfoldable pub route :
      {F : Type 0}
      → PartialConfig V F
      → Option Bytes
      → (Bytes → Option CachedModels)
      → CredStore
      → Result ConfigError (Bytes × PartialProvider V)
  unfolding value_at table hit
  route self routing_model cache store = elim self.provider [
    | some name ↦ named_row name (value_at name self.providers)
    | none ↦ ok_or (hit cache routing_model (table self.api_key store self.providers)) no_provider
  ]

  abbrev pub has_empty_prefix : PartialProvider V → Bool
  has_empty_prefix row = any_prefix is_empty row.model_prefixes

  unfoldable pub check_prefixes : List (Bytes × PartialProvider V) → Result ConfigError Bool
  unfolding is_empty bad
  check_prefixes [] = ok true
  check_prefixes ((name, row) ∷ rows) =
      refuse_if (has_empty_prefix row)
        (bad (str "model_prefixes")
          (str "provider `" ++ name ++ str "`: an empty prefix would own every model"))
        (check_prefixes rows)

abbrev pub is_zero : Option ℕ → Bool
is_zero none = false
is_zero (some n) = n == 0

abbrev pub some_and : {A : Type 0} → (A → Bool) → Option A → Bool
some_and test none = false
some_and test (some a) = test a

-- `filter(|m| !m.is_empty())`
abbrev pub nonempty_model : Option Bytes → Option Bytes
nonempty_model none = none
nonempty_model (some m) = if is_empty m then none else some m

-- The routing model, spelled by an alias or as it is.
abbrev pub seed : List (Bytes × Bytes) → Option Bytes → Bytes
seed aliases none = []
seed aliases (some m) = get_or (value_at m aliases) m

module _ (j : Json) (floats : Floats j.Value) where
  open j use {Value}
  open floats use {Float, is_nan}

  unfoldable pub check_scalars : PartialConfig Value Float → Result ConfigError Bool
  unfolding check_prefixes bad
  check_scalars self =
      refuse_if (is_zero self.max_tokens) (bad (str "max_tokens") (str "must be greater than zero"))
        (refuse_if (some_and is_nan self.temperature)
          (bad (str "temperature") (str "must be a number"))
          (refuse_if (some_and is_nan self.top_p) (bad (str "top_p") (str "must be a number"))
            (check_prefixes self.providers)))

  -- The non-generation body defaults of a row.
  unfoldable pub passthrough : List (Bytes × Value) → List (Bytes × Value)
  unfolding remove_key
  passthrough bd =
      remove_key (str "stream") (
        remove_key (str "top_p")
          (remove_key (str "temperature") (remove_key (str "max_tokens") bd)))

  -- What the routed row makes of the configuration.
  unfoldable pub resolve_row :
      PartialConfig Value Float
      → Option Bytes
      → Bytes
      → PartialProvider Value
      → Result ConfigError (ResolvedConfig Value Float)
  unfolding take_u32 take_f32 take_bool complete passthrough or_map value_at
  resolve_row self routing_model name row =
      let bd = row.body_defaults in
      take_u32 j bd (str "max_tokens") >>= λ max_tokens.
      take_f32 j floats bd (str "temperature") >>= λ temperature.
      take_f32 j floats bd (str "top_p") >>= λ top_p. take_bool j bd (str "stream") >>= λ stream.
      complete name
        (record row { base_url = or_else self.base_url row.base_url; body_defaults = [] })
      >>= λ provider. ok (record {
        provider = provider;
        model = seed provider.model_aliases routing_model;
        model_from_cache = false;
        output = get_or self.output text;
        thinking = get_or self.thinking false;
        inline_key = self.api_key;
        max_tokens = or_else self.max_tokens max_tokens;
        temperature = or_else self.temperature temperature;
        top_p = or_else self.top_p top_p;
        reasoning = self.reasoning;
        service_tier = self.service_tier;
        image = self.image;
        stream = or_else self.stream stream;
        usage_fold_thinking = get_or self.usage_fold_thinking false;
        timeout = self.timeout;
        system = self.system;
        extra = or_map (passthrough bd) self.extra;
      })

  -- `PartialConfig::into_resolved`
  unfoldable pub into_resolved :
      PartialConfig Value Float
      → Option Bytes
      → (Bytes → Option CachedModels)
      → CredStore
      → Result ConfigError (ResolvedConfig Value Float)
  unfolding check_scalars route resolve_row is_empty
  into_resolved self req_model cache store =
      let routing_model = nonempty_model (or_else req_model self.model) in
      check_scalars self >>= λ _. route self routing_model cache store >>= λ (name, row).
      resolve_row self routing_model name row
