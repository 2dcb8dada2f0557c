-- ===== src/Cli.antt =====
-- src/cli/mod.rs: the parsed command line, and the choice of the control plane. Paths are their
-- bytes, and a secret is its text.
pub mod Arms
pub mod Parse
pub mod Enough
pub mod Inert
pub mod Checked
pub mod Inline
pub mod Routed
use brazen.Base.{Bool, false, List, [], Option, none, Bytes}
use brazen.Config.Partial.{PartialConfig, no_config}

-- `IngressId` of src/ingress/mod.rs
pub data IngressId : Type 0 where
  openai_chat anthropic_messages : IngressId

pub record Flags (V F : Type 0) : Type 0 where
  pub config : PartialConfig V F
  pub prompt : Option Bytes
  pub files : List Bytes
  pub input : Option Bytes
  pub config_path : Option Bytes
  pub dump_config : Bool
  pub login : Bool
  pub list_models : Bool
  pub list_providers : Bool
  pub count_tokens : Bool
  pub serve : Bool
  pub in_dialect : Option IngressId
  pub browser : Bool
  pub skill : Bool
  pub help : Bool
  pub version : Bool

-- `Flags::default()`
abbrev pub no_flags : {V F : Type 0} → Flags V F
no_flags = record {
  config = no_config;
  prompt = none;
  files = [];
  input = none;
  config_path = none;
  dump_config = false;
  login = false;
  list_models = false;
  list_providers = false;
  count_tokens = false;
  serve = false;
  in_dialect = none;
  browser = false;
  skill = false;
  help = false;
  version = false;
}

pub data Route : Type 0 where
  login_route list_models_route list_providers_route count_tokens_route serve_route run_route :
      Route
