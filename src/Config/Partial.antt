-- ===== src/Config/Partial.antt =====
-- src/config/partial/: the layer of the configuration, and the fold of layers.
pub mod Fold
pub mod Rows
use brazen.Base.{
  ℕ, Bool, false, ◌&&◌, List, [], ◌∷◌, ◌++◌, Option, none, some, Bytes, str, bytes_eq, or_else,
  if◌then◌else◌,
}
use brazen.Base.Assoc.{or_map}
use brazen.Canonical.Knobs.{ReasoningEffort, ServiceTier}
use brazen.Canonical.Request.{Contents}
use brazen.Config.Provider.{
  ProtocolId, AuthId, HeaderSpec, TransportSpec, ModelsOverride, OAuthConfig, AmbientSpec,
}

pub data OutMode : Type 0 where
  text ndjson raw : OutMode

-- `OutMode::parse`
unfoldable pub parse_out_mode : Bytes → Option OutMode
parse_out_mode s =
    if bytes_eq s (str "text")
    then some text
    else if bytes_eq s (str "ndjson")
    then some ndjson
    else if bytes_eq s (str "raw")
    then some raw
    else none

pub data LossyMode : Type 0 where
  adapt reject : LossyMode

pub record PartialIngress : Type 0 where
  pub listen : Option Bytes
  pub token : Option Bytes
  pub lossy : Option LossyMode
  pub lossy_overrides : List (Bytes × LossyMode)

unfoldable pub or_partial_ingress : PartialIngress → PartialIngress → PartialIngress
or_partial_ingress hi lo = record {
  listen = or_else hi.listen lo.listen;
  token = or_else hi.token lo.token;
  lossy = or_else hi.lossy lo.lossy;
  lossy_overrides = or_map hi.lossy_overrides lo.lossy_overrides;
}

unfoldable pub or_ingress : Option PartialIngress → Option PartialIngress → Option PartialIngress
unfolding or_partial_ingress
or_ingress (some hi) (some lo) = some (or_partial_ingress hi lo)
or_ingress hi lo = or_else hi lo

pub record PartialProvider (V : Type 0) : Type 0 where
  pub base_url : Option Bytes
  pub exec : Option Bytes
  pub protocol : Option ProtocolId
  pub auth : Option AuthId
  pub api_header : Option HeaderSpec
  pub beta_headers : Option (List (Bytes × Bytes))
  pub generation_query : Option (List (Bytes × Bytes))
  pub model_aliases : Option (List (Bytes × Bytes))
  pub context_windows : Option (List (Bytes × ℕ))
  pub model_prefixes : Option (List Bytes)
  pub body_defaults : List (Bytes × V)
  pub unsupported_body_keys : Option (List Bytes)
  pub transport : Option TransportSpec
  pub models : Option ModelsOverride
  pub oauth : Option OAuthConfig
  pub ambient : Option AmbientSpec
  pub preset : Bool

pub record PartialConfig (V F : Type 0) : Type 0 where
  pub provider : Option Bytes
  pub model : Option Bytes
  pub base_url : Option Bytes
  pub api_key : Option Bytes
  pub output : Option OutMode
  pub raw_in : Option Bool
  pub thinking : Option Bool
  pub max_tokens : Option ℕ
  pub temperature : Option F
  pub top_p : Option F
  pub reasoning : Option ReasoningEffort
  pub service_tier : Option ServiceTier
  pub image : Option Bool
  pub stream : Option Bool
  pub usage_fold_thinking : Option Bool
  pub timeout : Option ℕ
  pub system : Option (Contents V)
  pub providers : List (Bytes × PartialProvider V)
  pub ingress : Option PartialIngress
  pub extra : List (Bytes × V)

module _ {V : Type 0} where
  -- `PartialProvider::or`
  unfoldable pub or_provider : PartialProvider V → PartialProvider V → PartialProvider V
  or_provider hi lo = record {
    base_url = or_else hi.base_url lo.base_url;
    exec = or_else hi.exec lo.exec;
    protocol = or_else hi.protocol lo.protocol;
    auth = or_else hi.auth lo.auth;
    api_header = or_else hi.api_header lo.api_header;
    beta_headers = or_else hi.beta_headers lo.beta_headers;
    generation_query = or_else hi.generation_query lo.generation_query;
    model_aliases = or_else hi.model_aliases lo.model_aliases;
    context_windows = or_else hi.context_windows lo.context_windows;
    model_prefixes = or_else hi.model_prefixes lo.model_prefixes;
    body_defaults = or_map hi.body_defaults lo.body_defaults;
    unsupported_body_keys = or_else hi.unsupported_body_keys lo.unsupported_body_keys;
    transport = or_else hi.transport lo.transport;
    models = or_else hi.models lo.models;
    oauth = or_else hi.oauth lo.oauth;
    ambient = or_else hi.ambient lo.ambient;
    preset = hi.preset && lo.preset;
  }

  -- The first row of a name, and the rows without it.
  unfoldable pub take_row :
      List (Bytes × PartialProvider V)
      → Bytes
      → Option (PartialProvider V × List (Bytes × PartialProvider V))
  take_row [] name = none
  take_row ((n, row) ∷ rows) name =
      let later = take_row rows name in
      if bytes_eq n name
      then some (row, rows)
      else elim later [ none ↦ none | some (found, rest) ↦ some (found, (n, row) ∷ rest) ]

  abbrev pub merged :
      PartialProvider V
      → Option (PartialProvider V × List (Bytes × PartialProvider V))
      → PartialProvider V
  merged hi_row none = hi_row
  merged hi_row (some (lo_row, rest)) = or_provider hi_row lo_row

  abbrev pub left :
      Option (PartialProvider V × List (Bytes × PartialProvider V))
      → List (Bytes × PartialProvider V)
      → List (Bytes × PartialProvider V)
  left none lo = lo
  left (some (lo_row, rest)) lo = rest

  unfoldable pub merge_providers :
      List (Bytes × PartialProvider V)
      → List (Bytes × PartialProvider V)
      → List (Bytes × PartialProvider V)
  unfolding take_row
  merge_providers [] lo = lo
  merge_providers ((name, hi_row) ∷ hi) lo =
      (name, merged hi_row (take_row lo name)) ∷ merge_providers hi (left (take_row lo name) lo)

module _ {V F : Type 0} where
  -- `PartialConfig::default()`
  abbrev pub no_config : PartialConfig V F
  no_config = record {
    provider = none;
    model = none;
    base_url = none;
    api_key = none;
    output = none;
    raw_in = none;
    thinking = none;
    max_tokens = none;
    temperature = none;
    top_p = none;
    reasoning = none;
    service_tier = none;
    image = none;
    stream = none;
    usage_fold_thinking = none;
    timeout = none;
    system = none;
    providers = [];
    ingress = none;
    extra = [];
  }

  -- `PartialConfig::or`
  unfoldable pub or_config : PartialConfig V F → PartialConfig V F → PartialConfig V F
  unfolding merge_providers or_ingress
  or_config hi lo = record {
    provider = or_else hi.provider lo.provider;
    model = or_else hi.model lo.model;
    base_url = or_else hi.base_url lo.base_url;
    api_key = or_else hi.api_key lo.api_key;
    output = or_else hi.output lo.output;
    raw_in = or_else hi.raw_in lo.raw_in;
    thinking = or_else hi.thinking lo.thinking;
    max_tokens = or_else hi.max_tokens lo.max_tokens;
    temperature = or_else hi.temperature lo.temperature;
    top_p = or_else hi.top_p lo.top_p;
    reasoning = or_else hi.reasoning lo.reasoning;
    service_tier = or_else hi.service_tier lo.service_tier;
    image = or_else hi.image lo.image;
    stream = or_else hi.stream lo.stream;
    usage_fold_thinking = or_else hi.usage_fold_thinking lo.usage_fold_thinking;
    timeout = or_else hi.timeout lo.timeout;
    system = or_else hi.system lo.system;
    providers = merge_providers hi.providers lo.providers;
    ingress = or_ingress hi.ingress lo.ingress;
    extra = or_map hi.extra lo.extra;
  }
