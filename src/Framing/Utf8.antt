-- ===== src/Framing/Utf8.antt =====
-- `String::from_utf8_lossy` and the test for well-formed UTF-8, as one machine over the bytes. The
-- machine holds the bytes of a sequence that is begun, and the bounds of its next byte.
use brazen.Base.{
  ℕ, zero, suc, Bool, true, false, ◌&&◌, [], ◌∷◌, ◌++◌, ◌≡◌, ◌≢◌, refl, arith, Bytes, ltb, leb,
  ◌==◌, if◌then◌else◌, append_assoc, append-nil,
}

-- `idle`, or bytes of a sequence whose next byte lies in `lo..=hi`, with `left` more after it.
pub data Utf8 : Type 0 where
  idle : Utf8
  within : Bytes → ℕ → ℕ → ℕ → Utf8

-- What a byte is at the start of a sequence.
pub data Lead : Type 0 where
  ascii never : Lead
  lead : ℕ → ℕ → ℕ → Lead

-- U+FFFD
abbrev pub replacement : Bytes
replacement = 0xEF ∷ 0xBF ∷ 0xBD ∷ []

abbrev between : ℕ → ℕ → ℕ → Bool
between lo hi b = leb lo b && leb b hi

unfoldable pub begin : ℕ → Lead
begin b =
    if ltb b 0x80
    then ascii
    else if between 0xC2 0xDF b
    then lead 0x80 0xBF 0
    else if b == 0xE0
    then lead 0xA0 0xBF 1
    else if b == 0xED
    then lead 0x80 0x9F 1
    else if between 0xE1 0xEF b
    then lead 0x80 0xBF 1
    else if b == 0xF0
    then lead 0x90 0xBF 2
    else if between 0xF1 0xF3 b
    then lead 0x80 0xBF 2
    else if b == 0xF4
    then lead 0x80 0x8F 2
    else never

-- What is written for a byte at the start of a sequence, and the state after it.
fresh : ℕ → Lead → Bytes × Utf8
fresh b ascii = (b ∷ [], idle)
fresh b never = (replacement, idle)
fresh b (lead lo hi left) = ([], within (b ∷ []) lo hi left)

-- After a byte within bounds: the sequence is complete, or wants a byte more.
extend : Bytes → ℕ → Bytes × Utf8
extend held zero = (held, idle)
extend held (suc left) = ([], within held 0x80 0xBF left)

-- A byte out of bounds ends the begun sequence by one replacement and is looked at afresh.
step : Utf8 → ℕ → Bytes × Utf8
unfolding fresh extend begin
step idle b = fresh b (begin b)
step (within held lo hi left) b =
    if between lo hi b
    then extend (held ++ b ∷ []) left
    else (replacement ++ (fresh b (begin b)).0, (fresh b (begin b)).1)

unfoldable pub lossy : Utf8 → Bytes → Bytes
unfolding step
lossy idle [] = []
lossy (within held lo hi left) [] = replacement
lossy s (b ∷ bs) = (step s b).0 ++ lossy (step s b).1 bs

unfoldable pub from_utf8_lossy : Bytes → Bytes
unfolding lossy
from_utf8_lossy = lossy idle

-- Whether a byte is allowed in a state.
allowed : Utf8 → ℕ → Bool
unfolding begin
allowed idle b = elim (begin b) [ never ↦ false | _ ↦ true ]
allowed (within held lo hi left) b = between lo hi b

-- Well-formed UTF-8: every byte is allowed where it stands, and no sequence is left open.
unfoldable pub valid : Utf8 → Bytes → Bool
unfolding allowed step
valid idle [] = true
valid (within held lo hi left) [] = false
valid s (b ∷ bs) = allowed s b && valid (step s b).1 bs

abbrev pub IsUtf8 : Bytes → Type 0
IsUtf8 s = valid idle s ≡ true

-- The bytes held back.
abbrev pending : Utf8 → Bytes
pending (within held lo hi left) = held
pending idle = []

fresh-pending : (b : ℕ) (l : Lead) → l ≢ never → (fresh b l).0 ++ pending (fresh b l).1 ≡ b ∷ []
unfolding fresh
fresh-pending b ascii h = refl
fresh-pending b never h = absurd (h refl)
fresh-pending b (lead _ _ _) h = refl

extend-pending :
    (held : Bytes) (left : ℕ) → (extend held left).0 ++ pending (extend held left).1 ≡ held
unfolding extend
extend-pending held zero = append-nil held
extend-pending held (suc left) = refl

-- An allowed byte is written or held: none is lost.
step-pending :
    (s : Utf8) (b : ℕ)
    → allowed s b ≡ true
    → (step s b).0 ++ pending (step s b).1 ≡ pending s ++ b ∷ []
unfolding allowed step
step-pending idle b h = fresh-pending b (begin b) (λ e. ground (arith, e))
step-pending (within held lo hi left) b h = rw h (extend-pending (held ++ b ∷ []) left)

lossy-cons :
    (s : Utf8) (b : ℕ) (bs : Bytes) → lossy s (b ∷ bs) ≡ (step s b).0 ++ lossy (step s b).1 bs
unfolding lossy
lossy-cons idle b bs = refl
lossy-cons (within _ _ _ _) b bs = refl

valid-cons :
    (s : Utf8) (b : ℕ) (bs : Bytes)
    → valid s (b ∷ bs) ≡ true
    → (allowed s b ≡ true) × (valid (step s b).1 bs ≡ true)
valid-cons idle b bs h = unfold valid in ground arith
valid-cons (within _ _ _ _) b bs h = unfold valid in ground arith

lossy-valid : (bs : Bytes) (s : Utf8) → valid s bs ≡ true → lossy s bs ≡ pending s ++ bs
lossy-valid [] idle h = unfold lossy in refl
lossy-valid [] (within _ _ _ _) h = unfold valid in cc
lossy-valid (b ∷ bs) s h =
    let (ok, rest) = valid-cons s b bs h in
    rw (lossy-cons s b bs, lossy-valid bs (step s b).1 rest, ← append_assoc, step-pending s b ok)
      (append_assoc (pending s) (b ∷ []) bs)

-- The lossy conversion changes no well-formed text.
pub from_utf8_lossy-IsUtf8 : (s : Bytes) → IsUtf8 s → from_utf8_lossy s ≡ s
unfolding from_utf8_lossy
from_utf8_lossy-IsUtf8 s h = lossy-valid s idle h
