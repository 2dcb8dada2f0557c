-- ===== src/Config/Row.antt =====
-- src/config/resolve/row.rs: a sparse row completed to a provider, and the generation scalars that
-- its body defaults carry. The 32-bit floats and what the program uses of them are a parameter.
pub mod Complete
use brazen.Base.{
  ℕ, ◌^◌, ◌-◌, Bool, true, false, not, ◌&&◌, ◌||◌, List, [], ◌∷◌, ◌++◌, Option, none, some, Bytes,
  str, bytes_eq, starts_with, leb, ltb, ◌==◌, is_some, or_else, get_or, if◌then◌else◌,
}
use brazen.Base.Assoc.{has_key, value_at, remove_key, or_map}
use brazen.Base.Result.{Result, ok, err, ◌>>=◌}
use brazen.Base.Text.{is_empty}
use brazen.Auth.Credentials.{CredStore, cred_state, activates}
use brazen.Canonical.Json.{Json}
use brazen.Canonical.Knobs.{ReasoningEffort, ServiceTier}
use brazen.Canonical.Model.{CachedModels, Provenance, cached, verbatim, select_model}
use brazen.Canonical.Request.{Contents}
use brazen.Config.Errors.{
  ConfigError, no_provider, unknown_provider, incomplete_provider, bad_value,
}
use brazen.Config.Partial.{PartialProvider, PartialConfig, OutMode}
use brazen.Config.Provider.{
  Provider, ProtocolId, AuthId, bearer, oauth2, is_no_auth, is_oauth2, HeaderSpec, HeaderScheme,
}

-- What the program uses of `f32`: the parse of a spelling, `is_nan`, and the number of a JSON value.
pub record Floats (V : Type 0) : Type 1 where
  pub Float : Type 0
  pub parse : Bytes → Option Float
  pub is_nan : Float → Bool
  pub as_float : V → Option Float

unfoldable pub bad : Bytes → Bytes → ConfigError
bad key detail = bad_value key detail

-- `ok_or_else`
abbrev pub ok_or {ℓ} : {A : Type ℓ} → Option A → ConfigError → Result ConfigError A
ok_or none e = err e
ok_or (some a) e = ok a

-- `if test { return Err(e) }`, before the rest.
abbrev pub refuse_if :
    {A : Type 0} → Bool → ConfigError → Result ConfigError A → Result ConfigError A
refuse_if true e rest = err e
refuse_if false e rest = rest

-- The header of the rows that carry a bearer token.
abbrev pub bearer_header : AuthId → Option HeaderSpec
bearer_header AuthId.bearer =
    some (record { name = str "Authorization"; scheme = HeaderScheme.bearer })
bearer_header oauth2 = some (record { name = str "Authorization"; scheme = HeaderScheme.bearer })
bearer_header _ = none

-- The address, which a row with a program may omit.
abbrev pub url_of : Bytes → Option Bytes → Bool → Result ConfigError Bytes
url_of name (some url) exec = ok url
url_of name none true = ok []
url_of name none false = err (incomplete_provider name (str "base_url"))

module _ {V : Type 0} where
  abbrev pub provider_of :
      Bytes → PartialProvider V → Bytes → ProtocolId → AuthId → Option HeaderSpec → Provider
  provider_of name row base_url protocol auth api_header = record {
    name = name;
    base_url = base_url;
    exec = row.exec;
    transport = row.transport;
    protocol = protocol;
    auth = auth;
    api_header = api_header;
    beta_headers = get_or row.beta_headers [];
    generation_query = get_or row.generation_query [];
    model_aliases = get_or row.model_aliases [];
    context_windows = get_or row.context_windows [];
    unsupported_body_keys = get_or row.unsupported_body_keys [];
    models = row.models;
    oauth = row.oauth;
    ambient = row.ambient;
  }

  -- From the guards on the authentication on.
  unfoldable pub authenticated :
      Bytes → PartialProvider V → Bytes → ProtocolId → AuthId → Result ConfigError Provider
  authenticated name row base_url protocol auth =
      let api_header = or_else row.api_header (bearer_header auth) in
      refuse_if (not (is_no_auth auth) && not (is_some api_header))
        (incomplete_provider name (str "api_header"))
        (refuse_if (is_oauth2 auth && not (is_some row.oauth))
          (incomplete_provider name (str "oauth"))
          (ok (provider_of name row base_url protocol auth api_header)))

  unfoldable pub complete : Bytes → PartialProvider V → Result ConfigError Provider
  unfolding bad authenticated
  complete name row = url_of name row.base_url (is_some row.exec) >>= λ base_url.
      refuse_if (is_some row.exec && is_some row.transport)
        (bad (str "transport") (
          str
            "cannot ride a row that also sets `exec` (that row's child IS the provider); drop one"))
        (ok_or row.protocol (incomplete_provider name (str "protocol")) >>= λ protocol.
          ok_or row.auth (incomplete_provider name (str "auth")) >>= λ auth.
          authenticated name row base_url protocol auth)

-- A value that a key of the body defaults may have, and the refusal of another one.
abbrev pub taken :
    {V A : Type 0} → (V → Option A) → Bytes → Bytes → Option V → Result ConfigError (Option A)
taken read key detail none = ok none
taken read key detail (some v) = elim (read v) [
  | some a ↦ ok (some a)
  | none ↦ err (bad key detail)
]

-- `filter(|n| *n > 0 && *n <= u32::MAX)`
abbrev pub positive_u32 : Option ℕ → Option ℕ
positive_u32 none = none
positive_u32 (some n) = if ltb 0 n && leb n (2 ^ 32 - 1) then some n else none

module _ (j : Json) where
  open j use {Value, as_u64, as_bool}

  -- The value that a `take` gives, from the body defaults; what is left is `remove_key`.
  unfoldable pub take_u32 : List (Bytes × Value) → Bytes → Result ConfigError (Option ℕ)
  unfolding value_at bad
  take_u32 bd key =
      taken (λ v. positive_u32 (as_u64 v)) key (str "must be a positive integer") (value_at key bd)

  unfoldable pub take_f32 :
      (f : Floats Value) → List (Bytes × Value) → Bytes → Result ConfigError (Option f.Float)
  unfolding value_at bad
  take_f32 f bd key = taken f.as_float key (str "must be a number") (value_at key bd)

  unfoldable pub take_bool : List (Bytes × Value) → Bytes → Result ConfigError (Option Bool)
  unfolding value_at bad
  take_bool bd key = taken as_bool key (str "must be a boolean") (value_at key bd)
