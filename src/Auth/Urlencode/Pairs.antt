-- ===== src/Auth/Urlencode/Pairs.antt =====
-- src/auth/urlencode.rs: a query written and split again.
use brazen.Base.{
  ℕ, ◌<◌, Bool, true, false, not, ◌&&◌, List, [], ◌∷◌, ◌++◌, some, Bytes, ◌≡◌, refl, ap, ◌∙◌, inl,
  inr, arith, Bool-cases, ◌==◌, append_assoc, append-nil,
}
use brazen.Base.Text.{is_empty}
use brazen.Framing.Sse.{split_on}
use brazen.Framing.Utf8.{IsUtf8}
use brazen.Auth.Urlencode.{
  is_unreserved, hex_digit, encode_byte, encode, encode_pair, encode_pairs, split_once, decode_pair,
  decode_segments, query_pairs,
}
use brazen.Auth.Urlencode.Codec.{AreBytes, decode-encode}

-- The separator does not occur.
unfoldable pub absent : ℕ → Bytes → Bool
absent sep [] = true
absent sep (b ∷ bs) = not (b == sep) && absent sep bs

absent-append :
    (sep : ℕ) (xs ys : Bytes)
    → absent sep xs ≡ true
    → absent sep ys ≡ true
    → absent sep (xs ++ ys) ≡ true
unfolding absent
absent-append sep [] ys h k = k
absent-append sep (x ∷ xs) ys h k = ground (arith, absent-append sep xs ys)

absent_amp-encode_byte : (b : ℕ) → b < 256 → absent b'&' (encode_byte b) ≡ true
unfolding absent encode_byte is_unreserved hex_digit
absent_amp-encode_byte b h = ground arith

absent_eq-encode_byte : (b : ℕ) → b < 256 → absent b'=' (encode_byte b) ≡ true
unfolding absent encode_byte is_unreserved hex_digit
absent_eq-encode_byte b h = ground arith

absent-encode :
    (sep : ℕ)
    → ((b : ℕ) → b < 256 → absent sep (encode_byte b) ≡ true)
    → (s : Bytes) → AreBytes s
    → absent sep (encode s) ≡ true
unfolding encode
absent-encode sep each [] h = unfold absent in refl
absent-encode sep each (b ∷ bs) (small, rest) =
    absent-append sep (encode_byte b) (encode bs) (each b small) (absent-encode sep each bs rest)

eq_self : (n : ℕ) → (n == n) ≡ true
eq_self n = ground arith

absent-cons :
    (sep x : ℕ) (xs : Bytes)
    → absent sep (x ∷ xs) ≡ true
    → ((x == sep) ≡ false) × (absent sep xs ≡ true)
unfolding absent
absent-cons sep x xs h = elim (Bool-cases (x == sep)) [
  | inl e ↦ let clash : false ≡ true = rw e at h in cc
  | inr e ↦ (e, rw e at h)
]

split_on-absent :
    (sep : ℕ) (xs piece : Bytes) → absent sep xs ≡ true → split_on sep piece xs ≡ (piece ++ xs) ∷ []
unfolding split_on
split_on-absent sep [] piece h = rw append-nil refl
split_on-absent sep (x ∷ xs) piece h =
    let (differs, rest) = absent-cons sep x xs h in
    rw (differs, split_on-absent sep xs (piece ++ x ∷ []) rest, append_assoc) refl

split_on-separator :
    (sep : ℕ) (xs piece more : Bytes)
    → absent sep xs ≡ true
    → split_on sep piece (xs ++ sep ∷ more) ≡ (piece ++ xs) ∷ split_on sep [] more
unfolding split_on
split_on-separator sep [] piece more h = rw (eq_self sep, append-nil) refl
split_on-separator sep (x ∷ xs) piece more h =
    let (differs, rest) = absent-cons sep x xs h in
    rw (differs, split_on-separator sep xs (piece ++ x ∷ []) more rest, append_assoc) refl

split_once-absent :
    (sep : ℕ) (xs more : Bytes)
    → absent sep xs ≡ true
    → split_once sep (xs ++ sep ∷ more) ≡ some (xs, more)
unfolding split_once
split_once-absent sep [] more h = rw (eq_self sep) refl
split_once-absent sep (x ∷ xs) more h =
    let (differs, rest) = absent-cons sep x xs h in
    rw (differs, split_once-absent sep xs more rest) refl

-- Keys and values of well-formed text.
abbrev pub AreTexts : List (Bytes × Bytes) → Type 0
AreTexts [] = Unit
AreTexts ((k, v) ∷ pairs) = (AreBytes k × IsUtf8 k) × (AreBytes v × IsUtf8 v) × AreTexts pairs

decode_pair-encode_pair :
    (k v : Bytes)
    → AreBytes k × IsUtf8 k
    → AreBytes v × IsUtf8 v
    → decode_pair (encode_pair (k, v)) ≡ (k, v)
unfolding decode_pair encode_pair
decode_pair-encode_pair k v (k_small, k_text) (v_small, v_text) =
    rw
      (
        decode_pair,
        split_once-absent b'=' (encode k) (encode v)
            (absent-encode b'=' absent_eq-encode_byte k k_small),
        decode-encode k k_small k_text,
        decode-encode v v_small v_text,
        decode_pair,
      )
      refl

absent-encode_pair :
    (k v : Bytes) → AreBytes k → AreBytes v → absent b'&' (encode_pair (k, v)) ≡ true
unfolding encode_pair
absent-encode_pair k v hk hv =
    absent-append b'&' (encode k) _ (absent-encode b'&' absent_amp-encode_byte k hk)
      (unfold absent in absent-encode b'&' absent_amp-encode_byte v hv)

is_empty-append : (xs : Bytes) (b : ℕ) (ys : Bytes) → is_empty (xs ++ b ∷ ys) ≡ false
unfolding is_empty
is_empty-append [] b ys = refl
is_empty-append (x ∷ xs) b ys = refl

decode_segments-encode_pair :
    (k v : Bytes) (segs : List Bytes)
    → AreBytes k × IsUtf8 k
    → AreBytes v × IsUtf8 v
    → decode_segments (encode_pair (k, v) ∷ segs) ≡ (k, v) ∷ decode_segments segs
unfolding decode_segments
decode_segments-encode_pair k v segs hk hv =
    let filled : is_empty (encode_pair (k, v)) ≡ false =
      unfold encode_pair in is_empty-append (encode k) b'=' (encode v) in
    rw (filled, decode_pair-encode_pair k v hk hv) refl

-- A list of pairs of well-formed texts is read back from the query that it is written as.
pub query_pairs-encode_pairs :
    (pairs : List (Bytes × Bytes)) → AreTexts pairs → query_pairs (encode_pairs pairs) ≡ pairs
unfolding query_pairs encode_pairs
query_pairs-encode_pairs [] h = unfold decode_segments is_empty in refl
query_pairs-encode_pairs ((k, v) ∷ []) (hk, hv, h) =
    ap decode_segments
      (split_on-absent b'&' (encode_pair (k, v)) [] (absent-encode_pair k v hk.0 hv.0))
    ∙ decode_segments-encode_pair k v [] hk hv
    ∙ (unfold decode_segments in refl)
query_pairs-encode_pairs ((k, v) ∷ next ∷ pairs) (hk, hv, h) =
    ap decode_segments
      (split_on-separator b'&' (encode_pair (k, v)) [] _ (absent-encode_pair k v hk.0 hv.0))
    ∙ decode_segments-encode_pair k v _ hk hv
    ∙ ap (λ ps. (k, v) ∷ ps) (query_pairs-encode_pairs (next ∷ pairs) h)
