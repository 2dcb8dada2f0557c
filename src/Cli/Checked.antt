-- ===== src/Cli/Checked.antt =====
-- src/cli/parse.rs: what parsed flags have passed, and the kind of every refusal.
use mathlib.Core.Path.{subst}
use brazen.Base.{
  ℕ, zero, suc, ◌≤◌, Bool, true, false, not, ◌&&◌, ltb, is_some, List, [], ◌∷◌, Option, none, some,
  Bytes, length, ◌≡◌, refl, arith, bytes_eq, str, if◌then◌else◌, Bool-cases, inl, inr,
}
use brazen.Base.Assoc.{value_at}
use brazen.Base.Result.{Result, ok, err, ◌>>=◌}
use brazen.Canonical.Error.{CanonicalError, usage, exit_code}
use brazen.Cli.{Flags, no_flags}
use brazen.Cli.Arms.{
  Arm, switch, takes, arms, Switch, raw_mode, Valued, in_dialect, provider, model, base_url,
  api_key, max_tokens, temperature, top_p, reasoning, tier, timeout, system, file, input,
  config_path, usage_error, needs, raw_direction, set, put,
}
use brazen.Cli.Parse.{
  Class, ends, operand, flag, class, key_of, value, act, step, go_on, turn, scan, is_probe,
  controls, check, checked, parse_args,
}
use brazen.Config.Partial.{PartialConfig}
use brazen.Config.Row.{Floats}

abbrev RefusalKind : {V A : Type 0} → Result (CanonicalError V) A → Type 0
RefusalKind (ok a) = Unit
RefusalKind (err e) = e.kind ≡ usage

-- Whatever a parse refuses, it refuses as a usage error.
record Usage {V A : Type 0} (r : Result (CanonicalError V) A) : Type 0 where
  refusal : RefusalKind r

accepted : (V : Type 0) {A : Type 0} (a : A) → Usage {V = V} (ok a)
accepted V a = record { refusal = tt }

bind-Usage :
    {V A B : Type 0} (m : Result (CanonicalError V) A) (f : A → Result (CanonicalError V) B)
    → Usage m
    → ((a : A) → Usage (f a))
    → Usage (m >>= f)
bind-Usage (ok a) f h k = k a
bind-Usage (err e) f h k = record { refusal = h.refusal }

if-Usage :
    {V A : Type 0} (b : Bool) (x y : Result (CanonicalError V) A)
    → Usage x
    → Usage y
    → Usage (if b then x else y)
if-Usage true x y a b = a
if-Usage false x y a b = b

needs-Usage :
    (V : Type 0) {A : Type 0} (key what spelled : Bytes) (o : Option A)
    → Usage (needs {V = V} key what spelled o)
unfolding needs usage_error
needs-Usage V key what spelled none = record { refusal = refl }
needs-Usage V key what spelled (some a) = accepted V a

direction-Usage :
    (V : Type 0) {F : Type 0} (inline : Option Bytes) (cfg : PartialConfig V F)
    → Usage (raw_direction inline cfg)
unfolding raw_direction usage_error
direction-Usage V none cfg = accepted V _
direction-Usage V (some dir) cfg = if-Usage (bytes_eq dir (str "both")) _ _ (accepted V _) (
    if-Usage (bytes_eq dir (str "in")) _ _ (accepted V _)
      (if-Usage (bytes_eq dir (str "out")) _ _ (accepted V _) (record { refusal = refl })))

few : (probe : Bool) (n : ℕ) → not probe && ltb 1 n ≡ false → probe ≡ false → n ≤ 1
few probe n h e = ground arith

free :
    {A B : Type 0} (a : Option A) (b : Option B)
    → is_some a && is_some b ≡ false
    → is_some a ≡ true
    → b ≡ none
free a none h e = refl
free (some a) (some b) h e = cc
free none (some b) h e = cc

module _ (V : Type 0) (floats : Floats V) where
  open floats use {Float}

  value-Usage :
      (key : Bytes) (inline : Option Bytes) (rest : List Bytes)
      → Usage (value {V = V} key inline rest)
  unfolding value usage_error
  value-Usage key (some v) rest = accepted V _
  value-Usage key none [] = record { refusal = refl }
  value-Usage key none (v ∷ rest) = accepted V _

  put-Usage :
      (v : Valued) (key text : Bytes) (f : Flags V Float) → Usage (put V floats v key text f)
  unfolding put
  put-Usage in_dialect key text f = bind-Usage _ _ (needs-Usage V key _ text _) (λ a. accepted V _)
  put-Usage provider key text f = accepted V _
  put-Usage model key text f = accepted V _
  put-Usage base_url key text f = accepted V _
  put-Usage api_key key text f = accepted V _
  put-Usage max_tokens key text f = bind-Usage _ _ (needs-Usage V key _ text _) (λ a. accepted V _)
  put-Usage temperature key text f = bind-Usage _ _ (needs-Usage V key _ text _) (λ a. accepted V _)
  put-Usage top_p key text f = bind-Usage _ _ (needs-Usage V key _ text _) (λ a. accepted V _)
  put-Usage reasoning key text f = bind-Usage _ _ (needs-Usage V key _ text _) (λ a. accepted V _)
  put-Usage tier key text f = bind-Usage _ _ (needs-Usage V key _ text _) (λ a. accepted V _)
  put-Usage timeout key text f = bind-Usage _ _ (needs-Usage V key _ text _) (λ a. accepted V _)
  put-Usage system key text f = accepted V _
  put-Usage file key text f = accepted V _
  put-Usage input key text f = accepted V _
  put-Usage config_path key text f = accepted V _

  set-Usage :
      (s : Switch) (inline : Option Bytes) (f : Flags V Float) → Usage (set V floats s inline f)
  unfolding set
  set-Usage raw_mode inline f =
      bind-Usage _ _ (direction-Usage V inline f.config) (λ a. accepted V _)
  set-Usage _ inline f = accepted V _

  act-Usage :
      (arm : Option Arm) (key : Bytes) (inline : Option Bytes) (rest : List Bytes)
      (f : Flags V Float)
      → Usage (act V floats arm key inline rest f)
  unfolding act usage_error
  act-Usage none key inline rest f = record { refusal = refl }
  act-Usage (some (switch s)) key inline rest f =
      bind-Usage _ _ (set-Usage s inline f) (λ g. accepted V _)
  act-Usage (some (takes v)) key inline rest f =
      bind-Usage _ _ (value-Usage key inline rest)
        (λ (text, more). bind-Usage _ _ (put-Usage v key text f) (λ g. accepted V _))

  step-Usage :
      (arg : Bytes) (rest : List Bytes) (f : Flags V Float) → Usage (step V floats arg rest f)
  unfolding step
  step-Usage arg rest f =
      act-Usage (value_at (key_of arg).0 arms) (key_of arg).0 (key_of arg).1 rest f

  abbrev UsageIf : Option (Result (CanonicalError V) (Flags V Float)) → Type 0
  UsageIf none = Unit
  UsageIf (some r) = Usage r

  turn-Usage :
      (c : Class) (arg : Bytes) (rest : List Bytes) (f : Flags V Float)
      → (option : Option (Result (CanonicalError V) (Flags V Float))) → UsageIf option
      → UsageIf (turn V floats c arg rest f option)
  turn-Usage ends arg rest f option h = accepted V _
  turn-Usage operand arg rest f option h = accepted V _
  turn-Usage flag arg rest f option h = h

  go_on-Usage :
      (fuel : ℕ) (result : Result (CanonicalError V) (Flags V Float × List Bytes))
      → Usage result
      → ((more : List Bytes) (g : Flags V Float) → UsageIf (scan V floats fuel more g))
      → UsageIf (go_on V floats (λ more g. scan V floats fuel more g) result)
  go_on-Usage fuel (err e) h ih = record { refusal = h.refusal }
  go_on-Usage fuel (ok (g, more)) h ih = ih more g

  scan-Usage :
      (fuel : ℕ) (argv : List Bytes) (f : Flags V Float) → UsageIf (scan V floats fuel argv f)
  unfolding scan
  scan-Usage fuel [] f = accepted V f
  scan-Usage zero (arg ∷ rest) f = tt
  scan-Usage (suc fuel) (arg ∷ rest) f = turn-Usage (class arg) arg rest f _ (
      go_on-Usage fuel (step V floats arg rest f) (step-Usage arg rest f)
        (λ more g. scan-Usage fuel more g))

  -- What the flags of a parsed command line have passed: at most one control operation beside no
  -- probe, and no prompt beside `--in`. A refusal exits with 64.
  abbrev pub Passed : Result (CanonicalError V) (Flags V Float) → Type 0
  Passed (ok f) =
      (is_probe f ≡ false → controls f ≤ 1) × (is_some f.in_dialect ≡ true → f.prompt ≡ none)
  Passed (err e) = exit_code e.kind ≡ 64

  usage-Passed : (r : Result (CanonicalError V) (Flags V Float)) → Usage r → Passed (r >>= check)
  unfolding check usage_error exit_code
  usage-Passed (err e) h = rw h.refusal refl
  usage-Passed (ok f) h = elim (Bool-cases (not (is_probe f) && ltb 1 (controls f))) [
    | inl e ↦ rw e refl
    | inr e ↦ elim (Bool-cases (is_some f.in_dialect && is_some f.prompt)) [
      | inl e' ↦ rw (e, e') refl
      | inr e' ↦ rw (e, e') (few (is_probe f) (controls f) e, free f.in_dialect f.prompt e')
    ]
  ]

  checked-Passed :
      (o : Option (Result (CanonicalError V) (Flags V Float)))
      (r : Result (CanonicalError V) (Flags V Float))
      → UsageIf o
      → checked o ≡ some r
      → Passed r
  checked-Passed none r h e = absurd cc
  checked-Passed (some p) r h e =
      let same : (p >>= check) ≡ r = cc in subst Passed same (usage-Passed p h)

  -- Every parsed command line has passed the checks of `Passed`, and every refusal, wherever in the
  -- line it arises, is a usage error, which exits with 64.
  pub parse_args-Passed :
      (argv : List Bytes) (r : Result (CanonicalError V) (Flags V Float))
      → parse_args V floats argv ≡ some r
      → Passed r
  unfolding parse_args
  parse_args-Passed argv r h =
      checked-Passed (scan V floats (length argv) argv no_flags) r
        (scan-Usage (length argv) argv no_flags) h
