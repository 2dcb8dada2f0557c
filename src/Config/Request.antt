-- ===== src/Config/Request.antt =====
-- src/config/resolved.rs: what the resolved configuration does to a request before it is encoded.
pub mod Strip
pub mod Silent
pub mod Prepared
use brazen.Base.{
  ℕ, Bool, true, false, not, List, [], ◌∷◌, Option, none, some, Bytes, str, bytes_eq, leb, or_else,
  if◌then◌else◌,
}
use brazen.Base.Assoc.{remove_key, or_map}
use brazen.Base.Text.{is_empty}
use brazen.Canonical.Knobs.{ReasoningEffort, floor}
use brazen.Canonical.Request.{CanonicalRequest, Content, Contents, text, nil, cons}
use brazen.Config.Provider.{OAuthConfig}
use brazen.Config.Resolve.{ResolvedConfig}

-- The body keys that name a field of the canonical request.
pub data Field : Type 0 where
  max_tokens temperature top_p stop reasoning service_tier image output cache_key : Field

unfoldable pub field_of : Bytes → Option Field
field_of key =
    if bytes_eq key (str "max_tokens")
    then some max_tokens
    else if bytes_eq key (str "temperature")
    then some temperature
    else if bytes_eq key (str "top_p")
    then some top_p
    else if bytes_eq key (str "stop")
    then some stop
    else if bytes_eq key (str "reasoning")
    then some reasoning
    else if bytes_eq key (str "service_tier")
    then some service_tier
    else if bytes_eq key (str "image")
    then some image
    else if bytes_eq key (str "output")
    then some output
    else if bytes_eq key (str "cache_key")
    then some cache_key
    else none

-- `n.max(floor)` on an optional number.
abbrev pub raise : Option ℕ → ℕ → Option ℕ
raise none floor = none
raise (some n) floor = if leb floor n then some n else some floor

-- `reasoning.filter(|_| budget)`
abbrev pub coupled : Option ReasoningEffort → Bool → Option ReasoningEffort
coupled effort true = effort
coupled effort false = none

-- The preamble of a row that has one.
abbrev preamble_of : Option OAuthConfig → Option Bytes
preamble_of none = none
preamble_of (some o) = o.system_preamble

module _ {V F : Type 0} where
  unfoldable pub fill_absent : CanonicalRequest V F → ResolvedConfig V F → CanonicalRequest V F
  unfolding or_map is_empty
  fill_absent req cfg = record req {
    model = if is_empty req.model then cfg.model else req.model;
    max_tokens = or_else req.max_tokens cfg.max_tokens;
    temperature = or_else req.temperature cfg.temperature;
    top_p = or_else req.top_p cfg.top_p;
    reasoning = or_else req.reasoning cfg.reasoning;
    service_tier = or_else req.service_tier cfg.service_tier;
    image = or_else req.image cfg.image;
    stream = or_else req.stream (or_else cfg.stream (some true));
    system = or_else req.system cfg.system;
    extra = or_map req.extra cfg.extra;
  }

  unfoldable pub clear_field : Field → CanonicalRequest V F → CanonicalRequest V F
  clear_field max_tokens req = record req { max_tokens = none }
  clear_field temperature req = record req { temperature = none }
  clear_field top_p req = record req { top_p = none }
  clear_field stop req = record req { stop = [] }
  clear_field reasoning req = record req { reasoning = none }
  clear_field service_tier req = record req { service_tier = none }
  clear_field image req = record req { image = none }
  clear_field output req = record req { output = none }
  clear_field cache_key req = record req { cache_key = none }

  abbrev pub cleared : Option Field → Bytes → CanonicalRequest V F → CanonicalRequest V F
  cleared (some field) key req = clear_field field req
  cleared none key req = record req { extra = remove_key key req.extra }

  unfoldable pub strip_key : Bytes → CanonicalRequest V F → CanonicalRequest V F
  unfolding field_of clear_field remove_key
  strip_key key req = cleared (field_of key) key req

  unfoldable pub strip_keys : List Bytes → CanonicalRequest V F → CanonicalRequest V F
  unfolding strip_key
  strip_keys [] req = req
  strip_keys (key ∷ keys) req = strip_keys keys (strip_key key req)

  unfoldable pub strip_unsupported :
      CanonicalRequest V F → ResolvedConfig V F → CanonicalRequest V F
  unfolding strip_keys
  strip_unsupported req cfg = strip_keys cfg.provider.unsupported_body_keys req

  abbrev pub with_budget :
      Option ReasoningEffort → Option ℕ → CanonicalRequest V F → CanonicalRequest V F
  with_budget none served_max req = req
  with_budget (some effort) served_max req = record req {
    max_tokens = raise (or_else req.max_tokens served_max) (floor effort);
  }

  unfoldable pub couple_budget : CanonicalRequest V F → Bool → Option ℕ → CanonicalRequest V F
  unfolding floor
  couple_budget req budget served_max = with_budget (coupled req.reasoning budget) served_max req

-- The list begins with the lead.
unfoldable pub leads : {V : Type 0} → Bytes → Contents V → Bool
leads lead (cons (text t) rest) = bytes_eq t lead
leads lead _ = false

abbrev system_list : {V : Type 0} → Option (Contents V) → Contents V
system_list none = nil
system_list (some system) = system

-- The system content led by the preamble.
unfoldable pub led : {V : Type 0} → Bytes → Contents V → Contents V
unfolding leads
led lead system = if leads lead system then system else cons (text lead) system

unfoldable pub lead_with_preamble :
    {V F : Type 0} → CanonicalRequest V F → ResolvedConfig V F → CanonicalRequest V F
unfolding led
lead_with_preamble req cfg = elim (preamble_of cfg.provider.oauth) [
  | none ↦ req
  | some lead ↦ record req { system = some (led lead (system_list req.system)) }
]
