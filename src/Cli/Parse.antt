-- ===== src/Cli/Parse.antt =====
-- src/cli/parse.rs: the loop over the words, the checks after it, and the route. The cursor is the
-- list of the words that are left; the loop runs on fuel.
use brazen.Base.{
  ℕ, zero, suc, ◌+◌, Bool, true, false, not, ◌&&◌, ◌||◌, List, [], ◌∷◌, ◌++◌, Option, none, some,
  Bytes, str, bytes_eq, starts_with, ltb, length, is_some, if◌then◌else◌,
}
use brazen.Base.Assoc.{value_at}
use brazen.Base.Result.{Result, ok, err, ◌>>=◌}
use brazen.Auth.Urlencode.{split_once}
use brazen.Canonical.Error.{CanonicalError}
use brazen.Cli.{
  Flags, no_flags, Route, login_route, list_models_route, list_providers_route, count_tokens_route,
  serve_route, run_route,
}
use brazen.Cli.Arms.{Arm, switch, takes, arms, usage_error, set, put}
use brazen.Config.Row.{Floats}
use brazen.Framing.Sse.{join}

-- What a word is where an option may stand: the end of the options, the first operand, or an option.
pub data Class : Type 0 where
  ends operand flag : Class

unfoldable pub class : Bytes → Class
unfolding starts_with
class arg =
    if bytes_eq arg (str "--")
    then ends
    else if not (starts_with (str "-") arg) || bytes_eq arg (str "-")
    then operand
    else flag

-- The key of an option, and the value after its equals sign.
abbrev pub keyed : Bytes → Option (Bytes × Bytes) → Bytes × Option Bytes
keyed arg none = (arg, none)
keyed arg (some (k, v)) = (k, some v)

unfoldable pub key_of : Bytes → Bytes × Option Bytes
unfolding split_once
key_of arg = keyed arg (split_once b'=' arg)

module _ {V : Type 0} where
  -- The value of a flag and the words after it.
  unfoldable pub value :
      Bytes → Option Bytes → List Bytes → Result (CanonicalError V) (Bytes × List Bytes)
  unfolding usage_error
  value key (some v) rest = ok (v, rest)
  value key none [] = err (usage_error (str "flag `" ++ key ++ str "` needs a value"))
  value key none (v ∷ rest) = ok (v, rest)

-- The text of the operands.
unfoldable pub prompt_text : List Bytes → Bytes
unfolding join
prompt_text = join b' '

-- `--` with nothing behind it leaves no prompt.
unfoldable pub tail_prompt : {V F : Type 0} → List Bytes → Flags V F → Flags V F
unfolding prompt_text
tail_prompt [] f = f
tail_prompt (w ∷ ws) f = record f { prompt = some (prompt_text (w ∷ ws)) }

module _ (V : Type 0) (floats : Floats V) where
  open floats use {Float}

  -- The arm of a key, `none` for an unknown flag.
  unfoldable pub act :
      Option Arm
      → Bytes
      → Option Bytes
      → List Bytes
      → Flags V Float
      → Result (CanonicalError V) (Flags V Float × List Bytes)
  unfolding set put value usage_error
  act none key inline rest f =
      err (usage_error (str "unknown flag `" ++ key ++ str "` (try `bz --help`)"))
  act (some (switch s)) key inline rest f = set V floats s inline f >>= λ g. ok (g, rest)
  act (some (takes v)) key inline rest f =
      value key inline rest >>= λ (text, more). put V floats v key text f >>= λ g. ok (g, more)

  -- One option.
  unfoldable pub step :
      Bytes → List Bytes → Flags V Float → Result (CanonicalError V) (Flags V Float × List Bytes)
  unfolding act key_of value_at
  step arg rest f = let (key, inline) = key_of arg in act (value_at key arms) key inline rest f

  -- The loop after an option: it goes on, or the error ends it.
  abbrev pub go_on :
      (List Bytes → Flags V Float → Option (Result (CanonicalError V) (Flags V Float)))
      → Result (CanonicalError V) (Flags V Float × List Bytes)
      → Option (Result (CanonicalError V) (Flags V Float))
  go_on again (err e) = some (err e)
  go_on again (ok (g, more)) = again more g

  -- One turn, with what an option leads to.
  abbrev pub turn :
      Class
      → Bytes
      → List Bytes
      → Flags V Float
      → Option (Result (CanonicalError V) (Flags V Float))
      → Option (Result (CanonicalError V) (Flags V Float))
  turn ends arg rest f option = some (ok (tail_prompt rest f))
  turn operand arg rest f option = some (ok (record f { prompt = some (prompt_text (arg ∷ rest)) }))
  turn flag arg rest f option = option

  -- The loop; `none` is out of fuel.
  unfoldable pub scan :
      ℕ → List Bytes → Flags V Float → Option (Result (CanonicalError V) (Flags V Float))
  unfolding class prompt_text tail_prompt step
  scan fuel [] f = some (ok f)
  scan zero (arg ∷ rest) f = none
  scan (suc fuel) (arg ∷ rest) f =
      turn (class arg) arg rest f (go_on (λ more g. scan fuel more g) (step arg rest f))

-- `u8::from`
abbrev pub one_if : Bool → ℕ
one_if true = 1
one_if false = 0

module _ {V F : Type 0} where
  -- `--help`, `--version` or `--skill`
  unfoldable pub is_probe : Flags V F → Bool
  is_probe f = f.help || f.version || f.skill

  -- The number of control operations.
  unfoldable pub controls : Flags V F → ℕ
  controls f =
      one_if f.dump_config
      + one_if f.list_models
      + one_if f.list_providers
      + one_if f.login
      + one_if f.count_tokens
      + one_if f.serve

  -- The checks after the loop.
  unfoldable pub check : Flags V F → Result (CanonicalError V) (Flags V F)
  unfolding is_probe controls usage_error
  check f =
      if not (is_probe f) && ltb 1 (controls f)
      then err (
          usage_error (
            str
              "control operations --login / --list-models / --list-providers / --count-tokens / --dump-config / --serve are mutually exclusive"))
      else if is_some f.in_dialect && is_some f.prompt
      then err (
          usage_error (
            str
              "--in reads one dialect request from stdin and cannot be combined with a positional prompt"))
      else ok f

  abbrev pub checked :
      Option (Result (CanonicalError V) (Flags V F))
      → Option (Result (CanonicalError V) (Flags V F))
  checked none = none
  checked (some result) = some (result >>= check)

  unfoldable pub route_of : Option (Result (CanonicalError V) (Flags V F)) → Route
  route_of (some (ok f)) =
      if f.login
      then login_route
      else if f.list_models
      then list_models_route
      else if f.list_providers
      then list_providers_route
      else if f.count_tokens
      then count_tokens_route
      else if f.serve
      then serve_route
      else run_route
  route_of _ = run_route

module _ (V : Type 0) (floats : Floats V) where
  open floats use {Float}

  -- The loop takes at least one word in a turn, so as much fuel as there are words is enough.
  unfoldable pub parse_args : List Bytes → Option (Result (CanonicalError V) (Flags V Float))
  unfolding scan check
  parse_args argv = checked (scan V floats (length argv) argv no_flags)

  unfoldable pub route : List Bytes → Route
  unfolding parse_args route_of
  route argv = route_of (parse_args argv)
