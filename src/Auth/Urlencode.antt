-- ===== src/Auth/Urlencode.antt =====
-- src/auth/urlencode.rs: the form codec of the OAuth requests.
pub mod Codec
pub mod Pairs
use brazen.Base.{
  ℕ, ◌+◌, ◌-◌, ◌*◌, ◌/◌, ◌%◌, Bool, true, false, ◌&&◌, ◌||◌, List, [], ◌∷◌, ◌++◌, Option, none,
  some, Bytes, map, leb, ltb, ◌==◌, if◌then◌else◌,
}
use brazen.Base.Text.{is_empty}
use brazen.Framing.Sse.{split_on, join}
use brazen.Framing.Utf8.{from_utf8_lossy}

abbrev within : ℕ → ℕ → ℕ → Bool
within lo hi b = leb lo b && leb b hi

unfoldable pub is_unreserved : ℕ → Bool
is_unreserved b =
    within b'0' b'9' b
    || within b'A' b'Z' b
    || within b'a' b'z' b
    || b == b'-'
    || b == b'_'
    || b == b'.'
    || b == b'~'

-- `HEX[n]`
unfoldable pub hex_digit : ℕ → ℕ
hex_digit n = if ltb n 10 then b'0' + n else b'A' + (n - 10)

unfoldable pub encode_byte : ℕ → Bytes
unfolding is_unreserved hex_digit
encode_byte b =
    if is_unreserved b then b ∷ [] else b'%' ∷ hex_digit (b / 16) ∷ hex_digit (b % 16) ∷ []

unfoldable pub encode : Bytes → Bytes
unfolding encode_byte
encode [] = []
encode (b ∷ bs) = encode_byte b ++ encode bs

unfoldable pub nibble : ℕ → Option ℕ
nibble b =
    if within b'0' b'9' b
    then some (b - b'0')
    else if within b'a' b'f' b
    then some (b - b'a' + 10)
    else if within b'A' b'F' b
    then some (b - b'A' + 10)
    else none

abbrev join_nibbles : Option ℕ → Option ℕ → Option ℕ
join_nibbles (some hi) (some lo) = some (hi * 16 + lo)
join_nibbles _ _ = none

unfoldable pub hex : ℕ → ℕ → Option ℕ
unfolding nibble
hex hi lo = join_nibbles (nibble hi) (nibble lo)

-- The byte of an escape that begins with `b`.
unfoldable pub escape : ℕ → ℕ → ℕ → Option ℕ
unfolding hex
escape b hi lo = let byte = hex hi lo in if b == b'%' then byte else none

-- A byte that stands for itself, or `+` for the space.
unfoldable pub literal : ℕ → ℕ
literal b = if b == b'+' then b' ' else b

-- The loop of `decode`.
unfoldable pub decode_bytes : Bytes → Bytes
unfolding escape literal
decode_bytes [] = []
decode_bytes (b ∷ []) = literal b ∷ []
decode_bytes (b ∷ c ∷ []) = literal b ∷ decode_bytes (c ∷ [])
decode_bytes (b ∷ hi ∷ lo ∷ rest) = elim (escape b hi lo) [
  | some byte ↦ byte ∷ decode_bytes rest
  | none ↦ literal b ∷ decode_bytes (hi ∷ lo ∷ rest)
]

unfoldable pub decode : Bytes → Bytes
unfolding decode_bytes
decode s = from_utf8_lossy (decode_bytes s)

unfoldable pub encode_pair : Bytes × Bytes → Bytes
unfolding encode
encode_pair (k, v) = encode k ++ b'=' ∷ encode v

unfoldable pub encode_pairs : List (Bytes × Bytes) → Bytes
unfolding encode_pair join
encode_pairs pairs = join b'&' (map encode_pair pairs)

-- `split_once('=')`
unfoldable pub split_once : ℕ → Bytes → Option (Bytes × Bytes)
split_once sep [] = none
split_once sep (b ∷ bs) =
    let later = split_once sep bs in
    if b == sep then some ([], bs) else elim later [ none ↦ none | some (k, v) ↦ some (b ∷ k, v) ]

unfoldable pub decode_pair : Bytes → Bytes × Bytes
unfolding decode split_once
decode_pair seg = elim (split_once b'=' seg) [
  | some (k, v) ↦ (decode k, decode v)
  | none ↦ (decode seg, [])
]

-- The segments that are not empty, decoded.
unfoldable pub decode_segments : List Bytes → List (Bytes × Bytes)
unfolding decode_pair
decode_segments [] = []
decode_segments (seg ∷ segs) =
    let rest = decode_segments segs in if is_empty seg then rest else decode_pair seg ∷ rest

unfoldable pub query_pairs : Bytes → List (Bytes × Bytes)
unfolding decode_segments split_on
query_pairs query = decode_segments (split_on b'&' [] query)
