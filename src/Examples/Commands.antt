-- ===== src/Examples/Commands.antt =====
-- The command line at concrete words.
use brazen.Base.{
  ℕ, true, false, List, [], ◌∷◌, ◌++◌, none, some, Bytes, str, bytes_eq, starts_with, ◌≡◌, ◌↔◌,
  refl,
}
use brazen.Base.Assoc.{value_at}
use brazen.Base.Result.{Result, ok}
use brazen.Auth.Urlencode.{split_once}
use brazen.Cli.{Flags, no_flags, login_route}
use brazen.Cli.Arms.{model, parse_uint, set, put}
use brazen.Cli.Checked.{Passed, parse_args-Passed}
use brazen.Cli.Enough.{parse_args-Answer}
use brazen.Cli.Inert.{prompted, parse_args-append}
use brazen.Cli.Inline.{scan_inline}
use brazen.Cli.Parse.{
  class, key_of, value, act, step, scan, tail_prompt, is_probe, controls, check, parse_args, route,
}
use brazen.Cli.Routed.{Agrees, route-Agrees}
use brazen.Config.Row.{Floats}
use brazen.Canonical.Error.{CanonicalError}
use brazen.Examples.Values.{Value}

-- Floats that are whole numbers.
abbrev pub floats : Floats Value
floats = record { Float = ℕ; parse = parse_uint 32; is_nan = λ x. false; as_float = λ v. none }

abbrev login_words : List Bytes
login_words = str "--login" ∷ str "-m" ∷ str "x" ∷ []

abbrev login_flags : Flags Value ℕ
login_flags = record no_flags {
  login = true;
  config = record no_flags.config { model = some (str "x") };
}

login_parse : parse_args Value floats login_words ≡ some (ok login_flags)
unfolding parse_args scan class key_of value act step set put is_probe controls check value_at
    split_once bytes_eq starts_with str tail_prompt
login_parse = refl

parse_args-append_example :
    parse_args Value floats (login_words ++ str "hi" ∷ str "--serve" ∷ [])
    ≡ some (ok (prompted Value floats login_flags (str "hi" ∷ str "--serve" ∷ [])))
unfolding class bytes_eq starts_with str
parse_args-append_example =
    parse_args-append Value floats login_words (str "hi") (str "--serve" ∷ []) login_flags refl
      login_parse refl refl

parse_args-Answer_example :
    (r : Result (CanonicalError Value) (Flags Value ℕ)) × (parse_args Value floats login_words
      ≡ some r)
parse_args-Answer_example = parse_args-Answer Value floats login_words

parse_args-Passed_example : Passed Value floats (ok login_flags)
parse_args-Passed_example = parse_args-Passed Value floats login_words (ok login_flags) login_parse

route-Agrees_example :
    (route Value floats login_words ≡ login_route) ↔ Agrees login_flags login_route
unfolding is_probe
route-Agrees_example =
    route-Agrees Value floats login_words login_flags login_parse refl login_route

scan_inline_example :
    scan Value floats 1 ((str "--model" ++ b'=' ∷ str "-x") ∷ []) no_flags
    ≡ scan Value floats 1 (str "--model" ∷ str "-x" ∷ []) no_flags
unfolding value_at bytes_eq str
scan_inline_example = scan_inline Value floats 0 (str "--model") (str "-x") [] no_flags model refl
