-- ===== src/Canonical/Usage.antt =====
-- src/canonical/usage.rs: the token counters. A counter that no provider reported is `none`.
pub mod Laws
use brazen.Base.{ℕ, ◌+◌, ◌-◌, ◌^◌, min, Bool, true, false, Option, none, some, if◌then◌else◌}

pub record Usage : Type 0 where
  pub input_tokens : Option ℕ
  pub output_tokens : Option ℕ
  pub cache_read_tokens : Option ℕ
  pub cache_write_tokens : Option ℕ
  pub input_total_tokens : Option ℕ
  pub thinking_tokens : Option ℕ
  pub context_window : Option ℕ

-- `Usage::default()`
abbrev pub no_usage : Usage
no_usage = record {
  input_tokens = none;
  output_tokens = none;
  cache_read_tokens = none;
  cache_write_tokens = none;
  input_total_tokens = none;
  thinking_tokens = none;
  context_window = none;
}

abbrev pub max_u32 : ℕ
max_u32 = 2 ^ 32 - 1

-- `u32::saturating_add`; `saturating_sub` is the subtraction of the natural numbers.
abbrev pub saturating_add : ℕ → ℕ → ℕ
saturating_add a b = min (a + b) max_u32

abbrev pub unwrap_or : Option ℕ → ℕ → ℕ
unwrap_or none d = d
unwrap_or (some n) d = n

abbrev input_total : Option ℕ → Bool → Usage → Option ℕ
input_total (some n) true u = some (
    saturating_add (saturating_add n (unwrap_or u.cache_read_tokens 0))
      (unwrap_or u.cache_write_tokens 0))
input_total n _ u = n

unfoldable pub with_input_total : Bool → Usage → Usage
with_input_total cache_outside_input u = record u {
  input_total_tokens = input_total u.input_tokens cache_outside_input u;
}

abbrev answer_tokens : Option ℕ → Option ℕ → Bool → Option ℕ
answer_tokens (some out) (some t) true = some (out - t)
answer_tokens out _ _ = out

unfoldable pub with_thinking : Option ℕ → Bool → Usage → Usage
with_thinking thinking output_contains_thinking u = record u {
  output_tokens = answer_tokens u.output_tokens thinking output_contains_thinking;
  thinking_tokens = thinking;
}

abbrev folded : Option ℕ → Option ℕ → Option ℕ
folded (some out) (some t) = some (saturating_add out t)
folded out _ = out

unfoldable pub fold_thinking : Usage → Usage
fold_thinking u = record u { output_tokens = folded u.output_tokens u.thinking_tokens }

-- `field.or(prior)`: a reported counter overwrites, an absent one leaves the prior value.
abbrev reported_or : Option ℕ → Option ℕ → Option ℕ
reported_or none prior = prior
reported_or (some n) prior = some n

-- `merge_usage` of src/ingress/anthropic_messages/acc.rs
unfoldable pub merge_usage : Usage → Usage → Usage
merge_usage acc u = record acc {
  input_tokens = reported_or u.input_tokens acc.input_tokens;
  output_tokens = reported_or u.output_tokens acc.output_tokens;
  cache_read_tokens = reported_or u.cache_read_tokens acc.cache_read_tokens;
  cache_write_tokens = reported_or u.cache_write_tokens acc.cache_write_tokens;
  input_total_tokens = reported_or u.input_total_tokens acc.input_total_tokens;
}
