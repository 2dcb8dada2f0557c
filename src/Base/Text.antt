-- ===== src/Base/Text.antt =====
-- The operations of Rust's `str` that the program calls, on UTF-8 bytes.
use mathlib.Core.Bool.{Bool, true, false, ◌&&◌, ◌||◌}
use mathlib.Core.List.{[], ◌∷◌, reverse}
use Prim.Native.Nat.{ℕ}
use brazen.Base.Tests.{◌==◌, leb, if◌then◌else◌}
use brazen.Base.Lists.{Bytes, starts_with}

-- `s.ends_with(suffix)`, the suffix first.
unfoldable pub ends_with : Bytes → Bytes → Bool
unfolding starts_with
ends_with suffix s = starts_with (reverse suffix) (reverse s)

-- `s.contains(word)`, the word first.
unfoldable pub contains : Bytes → Bytes → Bool
unfolding starts_with
contains word [] = starts_with word []
contains word (b ∷ bs) = starts_with word (b ∷ bs) || contains word bs

unfoldable pub is_empty : Bytes → Bool
is_empty [] = true
is_empty (b ∷ bs) = false

-- The Unicode white space of one, two and three bytes.
white1 : ℕ → Bool
white1 a = (leb 9 a && leb a 13) || a == 32

white2 : ℕ → ℕ → Bool
white2 a b = a == 0xC2 && (b == 0x85 || b == 0xA0)

white3 : ℕ → ℕ → ℕ → Bool
white3 a b c =
    (a == 0xE1 && b == 0x9A && c == 0x80)
    || (a == 0xE2
        && b == 0x80
        && ((leb 0x80 c && leb c 0x8A) || c == 0xA8 || c == 0xA9 || c == 0xAF))
    || (a == 0xE2 && b == 0x81 && c == 0x9F)
    || (a == 0xE3 && b == 0x80 && c == 0x80)

-- `trim_start`
unfoldable pub trim_start : Bytes → Bytes
unfolding white1 white2 white3
trim_start [] = []
trim_start (a ∷ []) = if white1 a then [] else a ∷ []
trim_start (a ∷ b ∷ []) =
    let rest = trim_start (b ∷ []) in
    if white1 a then rest else if white2 a b then [] else a ∷ b ∷ []
trim_start (a ∷ b ∷ c ∷ bs) =
    let rest1 = trim_start (b ∷ c ∷ bs) in
    let rest2 = trim_start (c ∷ bs) in
    let rest3 = trim_start bs in
    if white1 a
    then rest1
    else if white2 a b
    then rest2
    else if white3 a b c
    then rest3
    else a ∷ b ∷ c ∷ bs

-- `trim_end`, on the reversed bytes.
unfoldable pub trim_end_reversed : Bytes → Bytes
unfolding white1 white2 white3
trim_end_reversed [] = []
trim_end_reversed (a ∷ []) = if white1 a then [] else a ∷ []
trim_end_reversed (b ∷ a ∷ []) =
    let rest = trim_end_reversed (a ∷ []) in
    if white1 b then rest else if white2 a b then [] else b ∷ a ∷ []
trim_end_reversed (c ∷ b ∷ a ∷ bs) =
    let rest1 = trim_end_reversed (b ∷ a ∷ bs) in
    let rest2 = trim_end_reversed (a ∷ bs) in
    let rest3 = trim_end_reversed bs in
    if white1 c
    then rest1
    else if white2 b c
    then rest2
    else if white3 a b c
    then rest3
    else c ∷ b ∷ a ∷ bs

-- `trim`
unfoldable pub trim : Bytes → Bytes
unfolding trim_start trim_end_reversed
trim s = reverse (trim_end_reversed (reverse (trim_start s)))
