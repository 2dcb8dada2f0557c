-- ===== src/Cli/Arms.antt =====
-- src/cli/parse.rs: the flags, what each one sets, and the values they take. The parse of a 32-bit
-- float is a parameter.
use brazen.Base.{
  ℕ, ◌+◌, ◌-◌, ◌*◌, ◌^◌, true, false, ◌&&◌, List, [], ◌∷◌, ◌++◌, Option, none, some, Bytes, str,
  bytes_eq, leb, ◌==◌, if◌then◌else◌,
}
use brazen.Base.Result.{Result, ok, err, ◌>>=◌}
use brazen.Canonical.Error.{CanonicalError, usage}
use brazen.Canonical.Knobs.{effort_from_str, tier_from_str}
use brazen.Canonical.Request.{nil, cons, text}
use brazen.Cli.{Flags, IngressId, openai_chat, anthropic_messages}
use brazen.Config.Partial.{OutMode, ndjson, raw, PartialConfig}
use brazen.Config.Row.{Floats}

-- The flags that take no value.
pub data Switch : Type 0 where
  text_mode json_mode raw_mode thinking stream image usage_fold_thinking no_stream : Switch
  dump_config login list_models list_providers count_tokens serve browser : Switch
  skill help version : Switch

-- The flags that take one.
pub data Valued : Type 0 where
  in_dialect provider model base_url api_key max_tokens temperature top_p : Valued
  reasoning tier timeout system file input config_path : Valued

pub data Arm : Type 0 where
  switch : Switch → Arm
  takes : Valued → Arm

-- The spellings that `match key` knows.
abbrev pub arms : List (Bytes × Arm)
arms =
    (str "--text", switch text_mode)
    ∷ (str "--json", switch json_mode)
    ∷ (str "--raw", switch raw_mode)
    ∷ (str "--thinking", switch thinking)
    ∷ (str "--stream", switch stream)
    ∷ (str "--image", switch image)
    ∷ (str "--usage-fold-thinking", switch usage_fold_thinking)
    ∷ (str "--no-stream", switch no_stream)
    ∷ (str "--dump-config", switch dump_config)
    ∷ (str "--login", switch login)
    ∷ (str "--list-models", switch list_models)
    ∷ (str "--list-providers", switch list_providers)
    ∷ (str "--count-tokens", switch count_tokens)
    ∷ (str "--serve", switch serve)
    ∷ (str "--browser", switch browser)
    ∷ (str "--in", takes in_dialect)
    ∷ (str "--skill", switch skill)
    ∷ (str "--help", switch help)
    ∷ (str "-h", switch help)
    ∷ (str "--version", switch version)
    ∷ (str "-V", switch version)
    ∷ (str "--provider", takes provider)
    ∷ (str "--model", takes model)
    ∷ (str "-m", takes model)
    ∷ (str "--base-url", takes base_url)
    ∷ (str "--api-key", takes api_key)
    ∷ (str "--max-tokens", takes max_tokens)
    ∷ (str "--temperature", takes temperature)
    ∷ (str "--top-p", takes top_p)
    ∷ (str "--reasoning", takes reasoning)
    ∷ (str "--tier", takes tier)
    ∷ (str "--timeout", takes timeout)
    ∷ (str "--system", takes system)
    ∷ (str "--file", takes file)
    ∷ (str "-f", takes file)
    ∷ (str "--input", takes input)
    ∷ (str "--config", takes config_path)
    ∷ []

-- `dialect_id` of src/ingress/mod.rs
unfoldable pub dialect_id : Bytes → Option IngressId
dialect_id name =
    if bytes_eq name (str "openai_chat")
    then some openai_chat
    else if bytes_eq name (str "anthropic_messages")
    then some anthropic_messages
    else none

unfoldable pub digits : ℕ → Bytes → Option ℕ
digits n [] = some n
digits n (b ∷ bs) =
    let later = digits (n * 10 + (b - b'0')) bs in if leb b'0' b && leb b b'9' then later else none

-- The digits of a number after the sign, at least one.
abbrev unsigned : Bytes → Option ℕ
unsigned [] = none
unsigned (b ∷ bs) = digits 0 (b ∷ bs)

abbrev at_most : ℕ → Option ℕ → Option ℕ
at_most bound none = none
at_most bound (some n) = if leb n bound then some n else none

-- `str::parse` into an unsigned integer of so many bits: digits after an optional `+`.
unfoldable pub parse_uint : ℕ → Bytes → Option ℕ
unfolding digits
parse_uint bits [] = none
parse_uint bits (b ∷ bs) =
    at_most (2 ^ bits - 1) (if b == b'+' then unsigned bs else unsigned (b ∷ bs))

module _ {V : Type 0} where
  unfoldable pub usage_error : Bytes → CanonicalError V
  usage_error message = record {
    kind = usage;
    message = message;
    provider_detail = none;
    retry_after_seconds = none;
  }

  -- A value that parses, or the usage error that says what the flag needs.
  unfoldable pub needs :
      {A : Type 0} → Bytes → Bytes → Bytes → Option A → Result (CanonicalError V) A
  unfolding usage_error
  needs key what spelled none = err (
      usage_error
        (str "flag `" ++ key ++ str "` needs " ++ what ++ str ", got `" ++ spelled ++ str "`"))
  needs key what spelled (some a) = ok a

  unfoldable pub raw_direction :
      {F : Type 0}
      → Option Bytes
      → PartialConfig V F
      → Result (CanonicalError V) (PartialConfig V F)
  unfolding usage_error
  raw_direction none cfg = ok (record cfg { output = some raw })
  raw_direction (some dir) cfg =
      if bytes_eq dir (str "both")
      then ok (record cfg { output = some raw })
      else if bytes_eq dir (str "in")
      then ok (record cfg { raw_in = some true })
      else if bytes_eq dir (str "out")
      then ok (record cfg { output = some raw; raw_in = some false })
      else err (
          usage_error
            (str "flag `--raw` takes no value or `in`/`out`/`both`, got `" ++ dir ++ str "`"))

module _ (V : Type 0) (floats : Floats V) where
  open floats use {Float, parse}

  -- The arms without a value; `inline` is what follows an equals sign.
  unfoldable pub set :
      Switch → Option Bytes → Flags V Float → Result (CanonicalError V) (Flags V Float)
  unfolding raw_direction
  set text_mode inline f = ok (record f { config = record f.config { output = some OutMode.text } })
  set json_mode inline f = ok (record f { config = record f.config { output = some ndjson } })
  set raw_mode inline f = raw_direction inline f.config >>= λ cfg. ok (record f { config = cfg })
  set thinking inline f = ok (record f { config = record f.config { thinking = some true } })
  set stream inline f = ok (record f { config = record f.config { stream = some true } })
  set image inline f = ok (record f { config = record f.config { image = some true } })
  set usage_fold_thinking inline f =
      ok (record f { config = record f.config { usage_fold_thinking = some true } })
  set no_stream inline f = ok (record f { config = record f.config { stream = some false } })
  set dump_config inline f = ok (record f { dump_config = true })
  set login inline f = ok (record f { login = true })
  set list_models inline f = ok (record f { list_models = true })
  set list_providers inline f = ok (record f { list_providers = true })
  set count_tokens inline f = ok (record f { count_tokens = true })
  set serve inline f = ok (record f { serve = true })
  set browser inline f = ok (record f { browser = true })
  set skill inline f = ok (record f { skill = true })
  set help inline f = ok (record f { help = true })
  set version inline f = ok (record f { version = true })

  -- The arms with a value, under the spelling of the flag.
  unfoldable pub put :
      Valued → Bytes → Bytes → Flags V Float → Result (CanonicalError V) (Flags V Float)
  unfolding needs dialect_id parse_uint effort_from_str tier_from_str
  put in_dialect key v f =
      needs key (str "a known ingress dialect (openai_chat, anthropic_messages)") v (dialect_id v)
      >>= λ d. ok (record f { in_dialect = some d })
  put provider key v f = ok (record f { config = record f.config { provider = some v } })
  put model key v f = ok (record f { config = record f.config { model = some v } })
  put base_url key v f = ok (record f { config = record f.config { base_url = some v } })
  put api_key key v f = ok (record f { config = record f.config { api_key = some v } })
  put max_tokens key v f = needs key (str "a number") v (parse_uint 32 v) >>= λ n.
      ok (record f { config = record f.config { max_tokens = some n } })
  put temperature key v f = needs key (str "a number") v (parse v) >>= λ x.
      ok (record f { config = record f.config { temperature = some x } })
  put top_p key v f = needs key (str "a number") v (parse v) >>= λ x.
      ok (record f { config = record f.config { top_p = some x } })
  put reasoning key v f = needs key (str "low|medium|high") v (effort_from_str v) >>= λ r.
      ok (record f { config = record f.config { reasoning = some r } })
  put tier key v f = needs key (str "priority|standard") v (tier_from_str v) >>= λ t.
      ok (record f { config = record f.config { service_tier = some t } })
  put timeout key v f = needs key (str "a number") v (parse_uint 64 v) >>= λ n.
      ok (record f { config = record f.config { timeout = some n } })
  put system key v f =
      ok (record f { config = record f.config { system = some (cons (text v) nil) } })
  put file key v f = ok (record f { files = f.files ++ v ∷ [] })
  put input key v f = ok (record f { input = some v })
  put config_path key v f = ok (record f { config_path = some v })
