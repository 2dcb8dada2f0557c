-- ===== src/Auth/Urlencode/Codec.antt =====
-- src/auth/urlencode.rs: a text encoded and decoded again.
use brazen.Base.{
  ℕ, ◌/◌, ◌%◌, ◌<◌, true, [], ◌∷◌, some, Bytes, ◌≡◌, refl, ap, ◌∙◌, inl, inr, arith, Bool-cases,
}
use brazen.Framing.Utf8.{IsUtf8, from_utf8_lossy-IsUtf8}
use brazen.Auth.Urlencode.{
  is_unreserved, hex_digit, encode_byte, encode, nibble, hex, escape, literal, decode_bytes, decode,
}

-- Every number in the list is a byte.
abbrev pub AreBytes : Bytes → Type 0
AreBytes [] = Unit
AreBytes (b ∷ bs) = (b < 256) × AreBytes bs

nibble-hex_digit : (n : ℕ) → n < 16 → nibble (hex_digit n) ≡ some n
unfolding nibble hex_digit
nibble-hex_digit n h = ground arith

hex-hex_digit : (b : ℕ) → b < 256 → hex (hex_digit (b / 16)) (hex_digit (b % 16)) ≡ some b
unfolding hex
hex-hex_digit b h =
    rw (nibble-hex_digit (b / 16) (omega arith), nibble-hex_digit (b % 16) (omega arith))
      (ap some (omega arith))

-- A byte that begins no escape and stands for itself.
decode_bytes-cons :
    (b : ℕ) (bs : Bytes) → is_unreserved b ≡ true → decode_bytes (b ∷ bs) ≡ b ∷ decode_bytes bs
unfolding decode_bytes escape literal is_unreserved
decode_bytes-cons b [] h = ground arith
decode_bytes-cons b (c ∷ []) h = ground arith
decode_bytes-cons b (c ∷ d ∷ bs) h = ground arith

decode_bytes-escape :
    (hi lo byte : ℕ) (rest : Bytes)
    → hex hi lo ≡ some byte
    → decode_bytes (b'%' ∷ hi ∷ lo ∷ rest) ≡ byte ∷ decode_bytes rest
unfolding decode_bytes escape
decode_bytes-escape hi lo byte rest h = rw (h, decode_bytes) refl

decode_bytes-encode : (s : Bytes) → AreBytes s → decode_bytes (encode s) ≡ s
unfolding encode encode_byte
decode_bytes-encode [] h = unfold decode_bytes in refl
decode_bytes-encode (b ∷ bs) (small, rest) = elim (Bool-cases (is_unreserved b)) [
  | inl e ↦ rw e (decode_bytes-cons b (encode bs) e ∙ ap (λ x. b ∷ x) (decode_bytes-encode bs rest))
  | inr e ↦ rw e (
      decode_bytes-escape _ _ b (encode bs) (hex-hex_digit b small)
      ∙ ap (λ x. b ∷ x) (decode_bytes-encode bs rest))
]

pub decode-encode : (s : Bytes) → AreBytes s → IsUtf8 s → decode (encode s) ≡ s
unfolding decode
decode-encode s small h = rw (decode_bytes-encode s small) (from_utf8_lossy-IsUtf8 s h)
