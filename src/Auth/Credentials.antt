-- ===== src/Auth/Credentials.antt =====
-- src/auth/mod.rs: the credential of a request. The store is the `CredStore` of src/store/mod.rs.
pub mod Ready
use brazen.Base.{
  ℕ, Bool, true, false, List, [], ◌∷◌, ◌++◌, Option, none, some, Bytes, str, is_some, map,
  if◌then◌else◌,
}
use brazen.Base.Result.{Result, ok, err, ◌>>=◌}
use brazen.Canonical.Error.{CanonicalError, config, auth}
use brazen.Config.Provider.{
  HeaderSpec, HeaderScheme, raw, bearer, AuthId, is_no_auth, is_oauth2, OAuthConfig, AmbientSpec,
}
use brazen.Protocol.Wire.{WireRequest, set_header}

pub data Cred : Type 0 where
  api_key : Bytes → Cred
  bearer_token : Bytes → Cred
  -- the access token, the refresh token, the expiry, the scope and the account
  oauth : Bytes → Bytes → ℕ → Option Bytes → Option Bytes → Cred

-- The reads of `CredStore`.
pub record CredStore : Type 0 where
  pub get : Bytes → Option Cred
  pub discover : AmbientSpec → Option Cred

pub record AuthCtx : Type 0 where
  pub store_key : Bytes
  pub inline_key : Option Bytes
  pub api_header : Option HeaderSpec
  pub oauth_row : Option OAuthConfig
  pub ambient : Option AmbientSpec

pub data CredSource : Type 0 where
  owned : CredSource
  borrowed : Bytes → CredSource

pub record FetchedCred : Type 0 where
  pub cred : Cred
  pub source : CredSource

abbrev pub borrowed_from : Bytes → Option Cred → Option FetchedCred
borrowed_from path none = none
borrowed_from path (some cred) = some (record { cred = cred; source = borrowed path })

abbrev discovered : CredStore → Option AmbientSpec → Option FetchedCred
discovered store none = none
discovered store (some spec) = borrowed_from spec.path (store.discover spec)

abbrev or_discover : Option Cred → Option FetchedCred → Option FetchedCred
or_discover (some cred) other = some (record { cred = cred; source = owned })
or_discover none other = other

unfoldable pub fetch_cred : CredStore → AuthCtx → Option FetchedCred
fetch_cred store ctx = or_discover (store.get ctx.store_key) (discovered store ctx.ambient)

pub data CredState : Type 0 where
  not_required inline stored ambient missing : CredState

unfoldable pub activates : CredState → Bool
activates inline = true
activates stored = true
activates ambient = true
activates _ = false

abbrev pub state_of : Option FetchedCred → CredState
state_of none = missing
state_of (some f) = elim f.source [ owned ↦ stored | borrowed path ↦ ambient ]

unfoldable pub cred_state :
    CredStore → Bytes → AuthId → Option AmbientSpec → Option Bytes → CredState
unfolding fetch_cred
cred_state store name id spec inline_key =
    let ctx : AuthCtx = record {
      store_key = name;
      inline_key = none;
      api_header = none;
      oauth_row = none;
      ambient = spec;
    } in
    if is_no_auth id
    then not_required
    else if is_oauth2 id
    then state_of (fetch_cred store ctx)
    else if is_some inline_key
    then inline
    else state_of (fetch_cred store ctx)

module _ {V : Type 0} where
  unfoldable pub auth_error : Bytes → CanonicalError V
  auth_error message = record {
    kind = auth;
    message = message;
    provider_detail = none;
    retry_after_seconds = none;
  }

  unfoldable pub require_header : AuthCtx → Result (CanonicalError V) HeaderSpec
  require_header ctx = elim ctx.api_header [
    | some spec ↦ ok spec
    | none ↦ err (record {
      kind = config;
      message = str "keyed provider row has no api_header (should be caught at resolve)";
      provider_detail = none;
      retry_after_seconds = none;
    })
  ]

  -- The secret of a fetched credential, for the row of a name.
  abbrev pub secret_of : Bytes → Option FetchedCred → Result (CanonicalError V) Bytes
  secret_of row none = err (
      auth_error (
        str "no credential for provider `"
        ++ row
        ++ str
            "`: set BRAZEN_API_KEY (or the provider API-key env var / --api-key) or run `bz --login --provider "
        ++ row
        ++ str "`"))
  secret_of row (some f) = elim f.cred [
    | api_key key ↦ ok key
    | bearer_token token ↦ ok token
    | oauth access refresh expires scope account ↦ err (
        auth_error (
          str "stored credential for provider `"
          ++ row
          ++ str
              "` is OAuth2 but that row is configured for an API key / bearer token; reconfigure the row or re-run `bz --login --provider "
          ++ row
          ++ str "`"))
  ]

  unfoldable pub resolved_secret : CredStore → AuthCtx → Result (CanonicalError V) Bytes
  unfolding fetch_cred
  resolved_secret store ctx = elim ctx.inline_key [
    | some key ↦ ok key
    | none ↦ secret_of ctx.store_key (fetch_cred store ctx)
  ]

unfoldable pub header_value : HeaderScheme → Bytes → Bytes
header_value raw secret = secret
header_value bearer secret = str "Bearer " ++ secret

unfoldable pub set_auth_header : WireRequest → HeaderSpec → Bytes → WireRequest
unfolding header_value
set_auth_header wire spec secret = set_header wire spec.name (header_value spec.scheme secret)

-- `StaticSecretAuth::apply`
unfoldable pub apply :
    {V : Type 0} → WireRequest → AuthCtx → CredStore → Result (CanonicalError V) WireRequest
unfolding resolved_secret require_header set_auth_header
apply wire ctx store = resolved_secret store ctx >>= λ secret.
    require_header ctx >>= λ spec. ok (set_auth_header wire spec secret)
