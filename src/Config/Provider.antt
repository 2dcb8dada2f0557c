-- ===== src/Config/Provider.antt =====
-- src/config/provider.rs, src/auth/oauth_row.rs and src/store/ambient.rs: the provider row.
use brazen.Base.{Bool, true, false, ◌&&◌, ◌||◌, ℕ, List, Option, Bytes, is_some}

pub data HeaderScheme : Type 0 where
  raw bearer : HeaderScheme

pub record HeaderSpec : Type 0 where
  pub name : Bytes
  pub scheme : HeaderScheme

pub data ProtocolId : Type 0 where
  openai_chat anthropic_messages openai_responses google_genai : ProtocolId
  google_cloudcode ollama_chat claude_code : ProtocolId

pub data AuthId : Type 0 where
  api_key bearer oauth2 no_auth : AuthId

abbrev pub is_no_auth : AuthId → Bool
is_no_auth no_auth = true
is_no_auth _ = false

abbrev pub is_oauth2 : AuthId → Bool
is_oauth2 oauth2 = true
is_oauth2 _ = false

pub record ModelsOverride : Type 0 where
  pub path : Option Bytes
  pub query : List (Bytes × Bytes)
  pub array_key : Option Bytes
  pub id_key : Option Bytes
  pub map_key : Option Bytes
  pub context_key : Option Bytes
  pub max_output_key : Option Bytes
  pub display_name_key : Option Bytes
  pub default_key : Option Bytes

unfoldable pub mixes_shapes : ModelsOverride → Bool
mixes_shapes m = is_some m.map_key && (is_some m.array_key || is_some m.id_key)

pub record TransportSpec : Type 0 where
  pub program : Bytes
  pub args : List Bytes

pub data DeviceStyle : Type 0 where
  rfc8628 codex : DeviceStyle

pub record DeviceSpec : Type 0 where
  pub url : Bytes
  pub style : DeviceStyle

pub record RedirectSpec : Type 0 where
  pub host : Bytes
  pub port : Option ℕ
  pub path : Bytes

pub record OAuthConfig : Type 0 where
  pub authorize_url : Bytes
  pub token_url : Bytes
  pub device : Option DeviceSpec
  pub client_id : Bytes
  pub client_secret : Option Bytes
  pub scope : Option Bytes
  pub beta_headers : List (Bytes × Bytes)
  pub system_preamble : Option Bytes
  pub redirect : RedirectSpec
  pub authorize_params : List (Bytes × Bytes)
  pub account_header : Option Bytes

pub data AmbientFormat : Type 0 where
  claude_code codex api_key_env : AmbientFormat

pub record AmbientSpec : Type 0 where
  pub format : AmbientFormat
  pub path : Bytes

pub record Provider : Type 0 where
  pub name : Bytes
  pub base_url : Bytes
  pub exec : Option Bytes
  pub transport : Option TransportSpec
  pub protocol : ProtocolId
  pub auth : AuthId
  pub api_header : Option HeaderSpec
  pub beta_headers : List (Bytes × Bytes)
  pub generation_query : List (Bytes × Bytes)
  pub model_aliases : List (Bytes × Bytes)
  pub context_windows : List (Bytes × ℕ)
  pub unsupported_body_keys : List Bytes
  pub models : Option ModelsOverride
  pub oauth : Option OAuthConfig
  pub ambient : Option AmbientSpec
