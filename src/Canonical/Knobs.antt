-- ===== src/Canonical/Knobs.antt =====
-- src/canonical/knobs.rs: the reasoning effort and the processing lane, and their spellings.
pub mod Spelling
use brazen.Base.{ℕ, ◌+◌, Option, none, some, Bytes, str, bytes_eq, if◌then◌else◌}

pub data ReasoningEffort : Type 0 where
  low medium high : ReasoningEffort

unfoldable pub as_str : ReasoningEffort → Bytes
as_str low = str "low"
as_str medium = str "medium"
as_str high = str "high"

unfoldable pub budget : ReasoningEffort → ℕ
budget low = 1024
budget medium = 8192
budget high = 24576

abbrev pub reasoning_headroom : ℕ
reasoning_headroom = 4096

unfoldable pub floor : ReasoningEffort → ℕ
unfolding budget
floor effort = budget effort + reasoning_headroom

-- `FromStr for ReasoningEffort`
unfoldable pub effort_from_str : Bytes → Option ReasoningEffort
effort_from_str s =
    if bytes_eq s (str "low")
    then some low
    else if bytes_eq s (str "medium")
    then some medium
    else if bytes_eq s (str "high")
    then some high
    else none

pub data ServiceTier : Type 0 where
  priority standard : ServiceTier

unfoldable pub openai : ServiceTier → Bytes
openai priority = str "priority"
openai standard = str "default"

unfoldable pub anthropic : ServiceTier → Bytes
anthropic priority = str "auto"
anthropic standard = str "standard_only"

-- `FromStr for ServiceTier`
unfoldable pub tier_from_str : Bytes → Option ServiceTier
tier_from_str s =
    if bytes_eq s (str "priority")
    then some priority
    else if bytes_eq s (str "standard")
    then some standard
    else none
