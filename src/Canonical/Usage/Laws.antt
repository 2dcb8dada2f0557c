-- ===== src/Canonical/Usage/Laws.antt =====
-- src/canonical/usage.rs: the accounting rules and the projection of the consumer.
use brazen.Base.{ℕ, ◌+◌, ◌≤◌, Bool, true, false, none, some, ◌≡◌, arith}
use brazen.Canonical.Usage.{
  Usage, max_u32, with_input_total, with_thinking, fold_thinking, merge_usage,
}

-- Where the served output counter contains the reasoning split, taking the split out and folding
-- it back in gives the served counter; where the split sits beside it, the fold gives their sum.
-- The input side is untouched by both.
pub fold_thinking-with_thinking :
    (u : Usage) (out t : ℕ)
    → u.output_tokens ≡ some out
    → t ≤ out
    → out + t ≤ max_u32
    → ((fold_thinking (with_thinking (some t) true u)).output_tokens ≡ some out)
      × ((fold_thinking (with_thinking (some t) false u)).output_tokens ≡ some (out + t))
      × ((with_thinking (some t) true u).input_total_tokens ≡ u.input_total_tokens)
unfolding fold_thinking with_thinking
fold_thinking-with_thinking u out t e h fits = ground arith

-- Where the cached slices sit beside the prompt counter, the prompt total is the sum of the three
-- (as long as that fits in 32 bits), where they are inside it the total is the counter itself, and
-- with no prompt counter there is no total under either accounting.
pub with_input_total_lem :
    (u : Usage) (outside : Bool) (n r w : ℕ)
    → u.input_tokens ≡ some n
    → u.cache_read_tokens ≡ some r
    → u.cache_write_tokens ≡ some w
    → n + r + w ≤ max_u32
    → ((with_input_total true u).input_total_tokens ≡ some (n + r + w))
      × ((with_input_total false u).input_total_tokens ≡ some n)
      × ((with_input_total outside (record u { input_tokens = none })).input_total_tokens ≡ none)
unfolding with_input_total
with_input_total_lem u outside n r w a b c fits = ground arith

-- The last event wins, counter by counter: merging three usage events may be grouped either way.
pub merge_usage_assoc :
    (a b c : Usage) → merge_usage (merge_usage a b) c ≡ merge_usage a (merge_usage b c)
unfolding merge_usage
merge_usage_assoc a b c = ground arith
