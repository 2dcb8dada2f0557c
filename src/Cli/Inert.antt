-- ===== src/Cli/Inert.antt =====
-- src/cli/parse.rs: the words of the prompt are inert.
use mathlib.Core.Path.{subst}
use brazen.Base.{
  Bool, true, false, not, ◌&&◌, ltb, is_some, if◌then◌else◌, ℕ, zero, suc, ◌<◌, List, [], ◌∷◌, ◌++◌,
  Option, none, some, Bytes, length, length-append, ◌≡◌, refl, ap, ◌∙◌, arith,
}
use brazen.Base.Assoc.{value_at}
use brazen.Base.Result.{Result, ok, err, on_ok, ok_injective}
use brazen.Canonical.Error.{CanonicalError}
use brazen.Cli.{Flags, no_flags}
use brazen.Cli.Arms.{Arm, switch, takes, arms, set, put}
use brazen.Cli.Parse.{
  Class, ends, operand, flag, class, key_of, value, prompt_text, tail_prompt, act, step, go_on,
  turn, scan, is_probe, controls, check, checked, parse_args,
}
use brazen.Config.Row.{Floats}

value-append :
    {V : Type 0} (key : Bytes) (inline : Option Bytes) (rest tail more : List Bytes) (v : Bytes)
    → Path (Result (CanonicalError V) (Bytes × List Bytes)) (value key inline rest) (ok (v, more))
    → Path
        (Result (CanonicalError V) (Bytes × List Bytes))
        (value key inline (rest ++ tail))
        (ok (v, more ++ tail))
unfolding value
value-append key (some w) rest tail more v h = cc
value-append key none [] tail more v h = cc
value-append key none (w ∷ rest) tail more v h = cc

-- An answer that is not the refusal comes from the other branch.
on_if :
    {A E P : Type 0} (test : Bool) (e : E) (rest : Result E A) {a : A}
    → (if test then err e else rest) ≡ ok a
    → (test ≡ false → rest ≡ ok a → P)
    → P
on_if true e rest h k = absurd cc
on_if false e rest h k = k refl h

module _ (V : Type 0) (floats : Floats V) where
  open floats use {Float}

  act-append :
      (arm : Option Arm) (key : Bytes) (inline : Option Bytes) (rest tail more : List Bytes)
      → (f g : Flags V Float) → act V floats arm key inline rest f ≡ ok (g, more)
      → act V floats arm key inline (rest ++ tail) f ≡ ok (g, more ++ tail)
  unfolding act
  act-append none key inline rest tail more f g h = cc
  act-append (some (switch s)) key inline rest tail more f g h =
      on_ok (set V floats s inline f) _ h
        λ g' e h1. rw e (ap (λ p. ok (p.0, p.1 ++ tail)) (ok_injective h1))
  act-append (some (takes v)) key inline rest tail more f g h =
      on_ok (value key inline rest) _ h λ (text, left) e h1.
        on_ok (put V floats v key text f) _ h1 λ g' e' h2.
          rw (value-append key inline rest tail left text e, e')
            (ap (λ p. ok (p.0, p.1 ++ tail)) (ok_injective h2))

  step-append :
      (arg : Bytes) (rest tail more : List Bytes) (f g : Flags V Float)
      → step V floats arg rest f ≡ ok (g, more)
      → step V floats arg (rest ++ tail) f ≡ ok (g, more ++ tail)
  unfolding step
  step-append arg rest tail more f g h =
      let (key, inline) = key_of arg in
      act-append (value_at key arms) key inline rest tail more f g h

  -- The flags with the prompt that the words make.
  abbrev pub prompted : Flags V Float → List Bytes → Flags V Float
  prompted g words = record g { prompt = some (prompt_text words) }

  answered :
      {f g : Flags V Float}
      → Path (Option (Result (CanonicalError V) (Flags V Float))) (some (ok f)) (some (ok g))
      → f ≡ g
  answered h = cc

  turn-append :
      (c : Class) (arg w : Bytes) (rest ws : List Bytes) (f g : Flags V Float)
      → (option option' : Option (Result (CanonicalError V) (Flags V Float)))
      → turn V floats c arg rest f option ≡ some (ok g)
      → g.prompt ≡ none
      → (option ≡ some (ok g) → option' ≡ some (ok (prompted g (w ∷ ws))))
      → turn V floats c arg (rest ++ w ∷ ws) f option' ≡ some (ok (prompted g (w ∷ ws)))
  unfolding tail_prompt
  turn-append ends arg w [] ws f g o o' h unset k =
      ap (λ x. some (ok (prompted x (w ∷ ws)))) (answered h)
  turn-append ends arg w (r ∷ rest) ws f g o o' h unset k =
      absurd (ground (arith, ap (λ x. x.prompt) (answered h), unset))
  turn-append operand arg w rest ws f g o o' h unset k =
      absurd (ground (arith, ap (λ x. x.prompt) (answered h), unset))
  turn-append flag arg w rest ws f g o o' h unset k = k h

  go_on-append :
      (fuel m : ℕ) (tail : List Bytes) (g end : Flags V Float)
      → (result result' : Result (CanonicalError V) (Flags V Float × List Bytes))
      → ((more : List Bytes) (f : Flags V Float)
          → result ≡ ok (f, more)
          → result' ≡ ok (f, more ++ tail))
      → ((more : List Bytes) (f : Flags V Float)
          → scan V floats fuel more f ≡ some (ok g)
          → scan V floats m (more ++ tail) f ≡ some (ok end))
      → go_on V floats (λ more f. scan V floats fuel more f) result ≡ some (ok g)
      → go_on V floats (λ more f. scan V floats m more f) result' ≡ some (ok end)
  go_on-append fuel m tail g end (err e) r' longer ih h = absurd cc
  go_on-append fuel m tail g end (ok (f, more)) r' longer ih h =
      rw (longer more f refl) (ih more f h)

  -- The loop on options that leave no prompt, and on an operand and any words behind them.
  scan-append :
      (fuel m : ℕ) (opts : List Bytes) (w : Bytes) (ws : List Bytes) (f g : Flags V Float)
      → fuel < m
      → class w ≡ operand
      → scan V floats fuel opts f ≡ some (ok g)
      → g.prompt ≡ none
      → scan V floats m (opts ++ w ∷ ws) f ≡ some (ok (prompted g (w ∷ ws)))
  unfolding scan
  scan-append fuel zero opts w ws f g less c h unset = absurd (omega arith)
  scan-append fuel (suc m) [] w ws f g less c h unset =
      rw c (ap (λ x. some (ok (prompted x (w ∷ ws)))) (answered h))
  scan-append zero (suc m) (arg ∷ opts) w ws f g less c h unset = absurd cc
  scan-append (suc fuel) (suc m) (arg ∷ opts) w ws f g less c h unset =
      turn-append (class arg) arg w opts ws f g _ _ h unset (
        go_on-append fuel m (w ∷ ws) g (prompted g (w ∷ ws)) (step V floats arg opts f)
          (step V floats arg (opts ++ w ∷ ws) f)
          (λ more x e. step-append arg opts (w ∷ ws) more f x e)
          (λ more x e. scan-append fuel m more w ws x g (omega (arith, less)) c e unset))

  -- What the checks pass they leave as it is.
  check-ok : (f g : Flags V Float) → check f ≡ ok g → f ≡ g
  unfolding check
  check-ok f g h =
      on_if (not (is_probe f) && ltb 1 (controls f)) _ _ h
        λ e h1. on_if (is_some f.in_dialect && is_some f.prompt) _ _ h1 λ e h2. ok_injective h2

  checked-ok :
      (o : Option (Result (CanonicalError V) (Flags V Float))) (g : Flags V Float)
      → checked o ≡ some (ok g)
      → (o ≡ some (ok g)) × (check g ≡ ok g)
  checked-ok none g h = cc
  checked-ok (some (err e)) g h = cc
  checked-ok (some (ok f)) g h =
      let passed : check f ≡ ok g = cc in
      let same : f ≡ g = check-ok f g passed in
      (ap (λ x. some (ok x)) same, subst (λ x. check x ≡ ok g) same passed)

  check-prompted :
      (g : Flags V Float) (words : List Bytes)
      → g.in_dialect ≡ none
      → check g ≡ ok g
      → check (prompted g words) ≡ ok (prompted g words)
  unfolding check is_probe controls
  check-prompted g words free h =
      on_if (not (is_probe g) && ltb 1 (controls g)) _ _ h λ e h1. rw (e, free) refl

  -- Where some options parse on their own and leave no prompt and no `--in`, an operand and any
  -- words behind it change nothing but the prompt, which is those words joined by spaces: no word
  -- of a prompt is read as an option.
  pub parse_args-append :
      (opts : List Bytes) (w : Bytes) (ws : List Bytes) (g : Flags V Float)
      → class w ≡ operand
      → parse_args V floats opts ≡ some (ok g)
      → g.prompt ≡ none
      → g.in_dialect ≡ none
      → parse_args V floats (opts ++ w ∷ ws) ≡ some (ok (prompted g (w ∷ ws)))
  unfolding parse_args
  parse_args-append opts w ws g c h unset free =
      let (scanned, passed) = checked-ok (scan V floats (length opts) opts no_flags) g h in
      let more : scan V floats (length (opts ++ w ∷ ws)) (opts ++ w ∷ ws) no_flags
          ≡ some (ok (prompted g (w ∷ ws))) =
        scan-append (length opts) (length (opts ++ w ∷ ws)) opts w ws no_flags g
          (omega (arith, length-append opts (w ∷ ws))) c scanned unset in
      ap checked more ∙ ap some (check-prompted g (w ∷ ws) free passed)
