-- ===== src/Examples/Configs.antt =====
-- The configuration, its resolution and the prepared request at concrete inputs.
use brazen.Base.{
  ◌⊎◌, ℕ, ◌≤◌, true, false, [], ◌∷◌, Option, none, some, Bytes, str, bytes_eq, starts_with, ◌≡◌,
  refl, arith, ◌-◌, ◌^◌,
}
use brazen.Base.Assoc.{value_at, remove_key, or_map}
use brazen.Base.Result.{ok}
use brazen.Auth.Credentials.{CredStore, api_key, apply}
use brazen.Auth.Credentials.Ready.{auth_ctx, Carries, apply-Carries}
use brazen.Canonical.Knobs.{low, floor}
use brazen.Canonical.Request.{CanonicalRequest, auto}
use brazen.Config.Ingress.{
  Sockets, IngressConfig, IsSafe, is_known, resolve_ingress, into_ingress, validate_lossy_overrides,
  resolve_ingress-IsSafe,
}
use brazen.Config.Partial.{
  PartialConfig, PartialProvider, no_config, or_config, merge_providers, adapt, text,
}
use brazen.Config.Partial.Fold.{or_config_assoc}
use brazen.Config.Partial.Rows.{or_row, value_at-merge_providers}
use brazen.Config.Provider.{Provider, HeaderSpec, bearer, AuthId, ollama_chat}
use brazen.Config.Request.{couple_budget}
use brazen.Config.Request.Prepared.{
  prepare, Coupled, couple_budget-Coupled, prepare-refilled, prepare-SilentAll,
}
use brazen.Config.Request.Silent.{SilentAll, listed}
use brazen.Config.Resolve.{
  ResolvedConfig, table, routable, route, check_scalars, check_prefixes, resolve_row, into_resolved,
  passthrough, hit,
}
use brazen.Config.Resolve.Checked.{IsChecked, into_resolved-IsChecked}
use brazen.Config.Resolve.Routing.{Routes, All, route-Routes}
use brazen.Config.Row.{complete, authenticated, take_u32, take_f32, take_bool}
use brazen.Config.Row.Complete.{IsComplete, complete-IsComplete}
use brazen.Examples.Commands.{floats}
use brazen.Examples.Values.{Value, json}
use brazen.Protocol.Wire.{new}

abbrev row : PartialProvider Value
row = record {
  base_url = some (str "u");
  exec = none;
  protocol = some ollama_chat;
  auth = some AuthId.bearer;
  api_header = none;
  beta_headers = none;
  generation_query = none;
  model_aliases = none;
  context_windows = none;
  model_prefixes = some (str "m" ∷ []);
  body_defaults = [];
  unsupported_body_keys = some (str "max_tokens" ∷ []);
  transport = none;
  models = none;
  oauth = none;
  ambient = none;
  preset = false;
}

abbrev provider : Provider
provider = record {
  name = str "a";
  base_url = str "u";
  exec = none;
  transport = none;
  protocol = ollama_chat;
  auth = AuthId.bearer;
  api_header = some (record { name = str "Authorization"; scheme = bearer });
  beta_headers = [];
  generation_query = [];
  model_aliases = [];
  context_windows = [];
  unsupported_body_keys = str "max_tokens" ∷ [];
  models = none;
  oauth = none;
  ambient = none;
}

abbrev config : PartialConfig Value ℕ
config = record no_config { providers = (str "a", row) ∷ []; max_tokens = some 5 }

abbrev named : PartialConfig Value ℕ
named = record no_config { providers = (str "a", row) ∷ []; provider = some (str "a") }

abbrev empty_store : CredStore
empty_store = record { get = λ name. none; discover = λ spec. none }

or_config_assoc_example :
    or_config (or_config config named) config ≡ or_config config (or_config named config)
or_config_assoc_example = or_config_assoc config named config

value_at-merge_providers_example :
    value_at (str "a") (merge_providers config.providers named.providers)
    ≡ or_row (value_at (str "a") config.providers) (value_at (str "a") named.providers)
value_at-merge_providers_example =
    value_at-merge_providers config.providers named.providers (str "a")

completed : complete (str "a") row ≡ ok provider
unfolding complete authenticated
completed = refl

complete-IsComplete_example : IsComplete (str "a") row provider
complete-IsComplete_example = complete-IsComplete (str "a") row provider completed

abbrev one_key : CredStore
one_key = record { get = λ name. some (api_key (str "k")); discover = λ spec. none }

apply-Carries_example :
    (spec : HeaderSpec) × (provider.api_header ≡ some spec)
    × Carries Value provider one_key none spec
        (apply (new (str "u") []) (auth_ctx provider none) one_key)
apply-Carries_example =
    apply-Carries Value (str "a") row provider completed refl refl (new (str "u") []) none one_key

route-Routes_example :
    Routes
      (λ name. none)
      (str "m1")
      (table none empty_store config.providers)
      (route config (some (str "m1")) (λ name. none) empty_store)
    × All (routable none empty_store) (table none empty_store config.providers)
route-Routes_example = route-Routes config (str "m1") (λ name. none) empty_store refl

abbrev resolved : ResolvedConfig Value ℕ
resolved = record {
  provider = provider;
  model = str "m1";
  model_from_cache = false;
  output = text;
  thinking = false;
  inline_key = none;
  max_tokens = some 5;
  temperature = none;
  top_p = none;
  reasoning = none;
  service_tier = none;
  image = none;
  stream = none;
  usage_fold_thinking = false;
  timeout = none;
  system = none;
  extra = [];
}

resolves :
    into_resolved (json []) floats config (some (str "m1")) (λ name. none) empty_store ≡ ok resolved
unfolding into_resolved check_scalars check_prefixes route table routable hit resolve_row take_u32
    take_f32 take_bool passthrough complete authenticated value_at remove_key or_map bytes_eq
    starts_with str
resolves = refl

small : (n : ℕ) → Path (Option ℕ) (some 5) (some n) → n ≤ 2 ^ 32 - 1
small n e = ground (arith, e)

into_resolved-IsChecked_example : IsChecked (json []) floats config resolved
into_resolved-IsChecked_example =
    into_resolved-IsChecked (json []) floats config (some (str "m1")) (λ name. none) empty_store
      resolved small resolves

abbrev sockets : Sockets
sockets = record {
  SocketAddr = Bytes;
  parse = λ s. some s;
  display = λ a. a;
  is_loopback = λ a. starts_with (str "127.") a;
}

abbrev listening : PartialConfig Value ℕ
listening = record no_config {
  ingress = some (record {
    listen = none;
    token = none;
    lossy = none;
    lossy_overrides = (str "thinking_replay", adapt) ∷ [];
  });
}

abbrev listener : IngressConfig sockets
listener = record {
  listen = str "127.0.0.1:4891";
  token = none;
  lossy = adapt;
  lossy_overrides = (str "thinking_replay", adapt) ∷ [];
}

resolve_ingress-IsSafe_example : IsSafe sockets listener
unfolding resolve_ingress into_ingress validate_lossy_overrides is_known bytes_eq starts_with str
resolve_ingress-IsSafe_example = resolve_ingress-IsSafe sockets listening listener refl

abbrev asked : CanonicalRequest Value ℕ
asked = record {
  model = str "m1";
  system = none;
  messages = [];
  tools = [];
  tool_choice = auto;
  parallel_tool_calls = none;
  max_tokens = some 10;
  temperature = none;
  top_p = none;
  reasoning = some low;
  stop = [];
  stream = none;
  output = none;
  service_tier = none;
  cache_key = none;
  image = none;
  extra = [];
}

couple_budget-Coupled_example :
    Coupled asked true (some 8000) (couple_budget asked true (some 8000))
couple_budget-Coupled_example = couple_budget-Coupled asked true (some 8000)

prepare-refilled_example :
    (m : ℕ) × ((prepare asked resolved true (some 8000)).max_tokens ≡ some m)
    × (floor low ≤ m)
    × (8000 ≤ m)
    × ((m ≡ 8000) ⊎ (m ≡ floor low))
unfolding listed bytes_eq str
prepare-refilled_example = prepare-refilled asked resolved low 8000 refl refl refl

prepare-SilentAll_example : SilentAll (str "max_tokens" ∷ []) (prepare asked resolved true none)
prepare-SilentAll_example = prepare-SilentAll asked resolved true
