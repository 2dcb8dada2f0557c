-- ===== src/Cli/Inline.antt =====
-- src/cli/parse.rs: the two forms of a flag with a value.
use mathlib.Core.Path.{subst}
use brazen.Base.{
  ℕ, suc, Bool, true, false, not, ◌&&◌, List, [], ◌∷◌, ◌++◌, Option, none, some, Bytes, str,
  bytes_eq, bytes_eq_iff, starts_with, ◌==◌, ◌≡◌, refl, ap, sym, ◌∙◌, arith, Bool-cases, inl, inr,
}
use brazen.Base.Assoc.{value_at}
use brazen.Base.Result.{Result}
use brazen.Auth.Urlencode.{split_once}
use brazen.Canonical.Error.{CanonicalError}
use brazen.Cli.{Flags}
use brazen.Cli.Arms.{takes, Valued, arms}
use brazen.Cli.Parse.{Class, ends, operand, flag, class, keyed, key_of, value, act, step, scan}
use brazen.Config.Row.{Floats}

-- A byte that the string does not have.
abbrev lacks : ℕ → Bytes → Bool
lacks sep [] = true
lacks sep (b ∷ bs) = not (b == sep) && lacks sep bs

split_once-lacks :
    (sep : ℕ) (k v : Bytes) → lacks sep k ≡ true → split_once sep (k ++ sep ∷ v) ≡ some (k, v)
unfolding split_once
split_once-lacks sep [] v h = ground arith
split_once-lacks sep (b ∷ k) v h = ground (arith, split_once-lacks sep k v)

split_once-none : (sep : ℕ) (k : Bytes) → lacks sep k ≡ true → split_once sep k ≡ none
unfolding split_once
split_once-none sep [] h = refl
split_once-none sep (b ∷ k) h = ground (arith, split_once-none sep k)

is_flag : Class → Bool
is_flag flag = true
is_flag _ = false

flag_class : (c : Class) → is_flag c ≡ true → c ≡ flag
unfolding is_flag
flag_class flag h = refl
flag_class ends h = cc
flag_class operand h = cc

-- What holds of every key of a table holds of a key that is found in it.
every : {A : Type 0} → (Bytes → Bool) → List (Bytes × A) → Bool
every test [] = true
every test ((k, a) ∷ m) = test k && every test m

found-every :
    {A : Type 0} (test : Bytes → Bool) (m : List (Bytes × A)) (key : Bytes) (a : A)
    → every test m ≡ true
    → value_at key m ≡ some a
    → test key ≡ true
unfolding value_at every
found-every test [] key a h e = cc
found-every test ((k, x) ∷ m) key a h e = elim (Bool-cases (bytes_eq k key)) [
  | inl same ↦
      let same_key : k ≡ key = (bytes_eq_iff k key).0 same in
      let first : test k ≡ true = ground (arith, h) in subst (λ x. test x ≡ true) same_key first
  | inr other ↦ found-every test m key a (ground (arith, h)) (ground (arith, e, other))
]

append_nonempty : (bs v : Bytes) (x : ℕ) → bytes_eq (bs ++ x ∷ v) [] ≡ false
unfolding bytes_eq
append_nonempty [] v x = refl
append_nonempty (b ∷ bs) v x = refl

flag-append : (key v : Bytes) → is_flag (class key) ≡ true → class (key ++ b'=' ∷ v) ≡ flag
unfolding class is_flag bytes_eq starts_with str
flag-append [] v h = cc
flag-append (b ∷ []) v h = ground arith
flag-append (b ∷ c ∷ bs) v h = ground (arith, append_nonempty bs v b'=')

-- An option without an equals sign.
plain_option : Bytes → Bool
plain_option key = is_flag (class key) && lacks b'=' key

arms-plain_option : every plain_option arms ≡ true
unfolding every plain_option is_flag class bytes_eq starts_with str
arms-plain_option = refl

module _ (V : Type 0) (floats : Floats V) where
  open floats use {Float}

  at_key :
      (Bytes × Option Bytes)
      → List Bytes
      → Flags V Float
      → Result (CanonicalError V) (Flags V Float × List Bytes)
  at_key (key, inline) rest f = act V floats (value_at key arms) key inline rest f

  step_lem :
      (arg : Bytes) (rest : List Bytes) (f : Flags V Float)
      → step V floats arg rest f ≡ at_key (key_of arg) rest f
  unfolding step at_key
  step_lem arg rest f = refl

  step_inline :
      (key v : Bytes) (rest : List Bytes) (f : Flags V Float) (t : Valued)
      → lacks b'=' key ≡ true
      → value_at key arms ≡ some (takes t)
      → step V floats (key ++ b'=' ∷ v) rest f ≡ step V floats key (v ∷ rest) f
  unfolding at_key act value key_of
  step_inline key v rest f t plain e =
      step_lem (key ++ b'=' ∷ v) rest f
      ∙ ap (λ o. at_key (keyed (key ++ b'=' ∷ v) o) rest f) (split_once-lacks b'=' key v plain)
      ∙ ap (λ arm. act V floats arm key (some v) rest f) e
      ∙ ap (λ arm. act V floats arm key none (v ∷ rest) f) (sym e)
      ∙ ap (λ o. at_key (keyed key o) (v ∷ rest) f) (sym (split_once-none b'=' key plain))
      ∙ sym (step_lem key (v ∷ rest) f)

  -- At any point of the loop, a flag that takes a value is read the same with the value behind an
  -- equals sign, be it empty or with further equals signs, and with the value as the next word, be
  -- it a word that looks like an option.
  pub scan_inline :
      (fuel : ℕ) (key v : Bytes) (rest : List Bytes) (f : Flags V Float) (t : Valued)
      → value_at key arms ≡ some (takes t)
      → scan V floats (suc fuel) ((key ++ b'=' ∷ v) ∷ rest) f
        ≡ scan V floats (suc fuel) (key ∷ v ∷ rest) f
  unfolding scan plain_option
  scan_inline fuel key v rest f t e =
      let plain : (is_flag (class key) && lacks b'=' key) ≡ true =
        found-every plain_option arms key (takes t) arms-plain_option e in
      let is : is_flag (class key) ≡ true = ground (arith, plain) in
      rw
        (
          flag-append key v is,
          flag_class (class key) is,
          step_inline key v rest f t (ground (arith, plain)) e,
        )
        refl
