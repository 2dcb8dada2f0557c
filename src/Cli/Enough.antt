-- ===== src/Cli/Enough.antt =====
-- src/cli/parse.rs: the loop ends.
use mathlib.Core.Path.{subst}
use brazen.Base.{
  ℕ, zero, suc, ◌≤◌, List, [], ◌∷◌, Option, none, some, Bytes, length, ◌≡◌, refl, arith,
}
use brazen.Base.Assoc.{value_at}
use brazen.Base.Result.{Result, ok, err, on_ok, ok_injective}
use brazen.Canonical.Error.{CanonicalError}
use brazen.Cli.{Flags, no_flags}
use brazen.Cli.Arms.{Arm, switch, takes, arms, set, put}
use brazen.Cli.Parse.{
  Class, ends, operand, flag, class, key_of, value, act, step, go_on, turn, scan, checked,
  parse_args,
}
use brazen.Config.Row.{Floats}

value-length :
    {V : Type 0} (key : Bytes) (inline : Option Bytes) (rest more : List Bytes) (v : Bytes)
    → Path (Result (CanonicalError V) (Bytes × List Bytes)) (value key inline rest) (ok (v, more))
    → length more ≤ length rest
unfolding value
value-length key (some w) rest more v h =
    subst (λ p. length p.1 ≤ length rest) (ok_injective h) (omega arith)
value-length key none [] more v h = cc
value-length key none (w ∷ rest) more v h =
    subst (λ p. length p.1 ≤ suc (length rest)) (ok_injective h) (omega arith)

module _ (V : Type 0) (floats : Floats V) where
  open floats use {Float}

  act-length :
      (arm : Option Arm) (key : Bytes) (inline : Option Bytes) (rest more : List Bytes)
      → (f g : Flags V Float) → act V floats arm key inline rest f ≡ ok (g, more)
      → length more ≤ length rest
  unfolding act
  act-length none key inline rest more f g h = cc
  act-length (some (switch s)) key inline rest more f g h =
      on_ok (set V floats s inline f) _ h
        λ g' e h1. subst (λ p. length p.1 ≤ length rest) (ok_injective h1) (omega arith)
  act-length (some (takes v)) key inline rest more f g h =
      on_ok (value key inline rest) _ h λ (text, left) e h1.
        on_ok (put V floats v key text f) _ h1 λ g' e' h2.
          subst (λ p. length p.1 ≤ length rest) (ok_injective h2)
            (value-length key inline rest left text e)

  -- A turn of the loop leaves no more words than there were behind the option.
  pub step-length :
      (arg : Bytes) (rest more : List Bytes) (f g : Flags V Float)
      → step V floats arg rest f ≡ ok (g, more)
      → length more ≤ length rest
  unfolding step
  step-length arg rest more f g h =
      let (key, inline) = key_of arg in act-length (value_at key arms) key inline rest more f g h

  abbrev Answer : Option (Result (CanonicalError V) (Flags V Float)) → Type 0
  Answer o = (r : Result (CanonicalError V) (Flags V Float)) × (o ≡ some r)

  turn-Answer :
      (c : Class) (arg : Bytes) (rest : List Bytes) (f : Flags V Float)
      → (option : Option (Result (CanonicalError V) (Flags V Float))) → Answer option
      → Answer (turn V floats c arg rest f option)
  turn-Answer ends arg rest f option h = (_, refl)
  turn-Answer operand arg rest f option h = (_, refl)
  turn-Answer flag arg rest f option h = h

  go_on-Answer :
      (fuel : ℕ) (rest : List Bytes)
      → (result : Result (CanonicalError V) (Flags V Float × List Bytes))
      → ((more : List Bytes) (g : Flags V Float) → result ≡ ok (g, more) → length more ≤ fuel)
      → ((more : List Bytes) (g : Flags V Float)
          → length more ≤ fuel
          → Answer (scan V floats fuel more g))
      → Answer (go_on V floats (λ more g. scan V floats fuel more g) result)
  go_on-Answer fuel rest (err e) less ih = (err e, refl)
  go_on-Answer fuel rest (ok (g, more)) less ih = ih more g (less more g refl)

  -- With as much fuel as there are words, or more, the loop answers.
  scan-Answer :
      (fuel : ℕ) (argv : List Bytes) (f : Flags V Float)
      → length argv ≤ fuel
      → Answer (scan V floats fuel argv f)
  unfolding scan
  scan-Answer fuel [] f h = (ok f, refl)
  scan-Answer zero (arg ∷ rest) f h = absurd (omega arith)
  scan-Answer (suc fuel) (arg ∷ rest) f h = turn-Answer (class arg) arg rest f _ (
      go_on-Answer fuel rest (step V floats arg rest f)
        (λ more g e. omega (arith, step-length arg rest more f g e, h))
        (λ more g less. scan-Answer fuel more g less))

  checked-Answer :
      (o : Option (Result (CanonicalError V) (Flags V Float))) → Answer o → Answer (checked o)
  checked-Answer none (r, e) = absurd cc
  checked-Answer (some r) h = (_, refl)

  -- The parse of a command line ends with an answer, flags or an error, for every list of words.
  pub parse_args-Answer :
      (argv : List Bytes)
      → (r : Result (CanonicalError V) (Flags V Float)) × (parse_args V floats argv ≡ some r)
  unfolding parse_args
  parse_args-Answer argv =
      checked-Answer (scan V floats (length argv) argv no_flags)
        (scan-Answer (length argv) argv no_flags (omega arith))
