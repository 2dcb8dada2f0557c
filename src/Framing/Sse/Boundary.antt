-- ===== src/Framing/Sse/Boundary.antt =====
-- src/protocol/sse.rs: the blank-line search as the boundary of the framing loop.
use brazen.Base.{
  ℕ, suc, ◌+◌, ◌-◌, ◌≤◌, ◌<◌, [], ◌∷◌, ◌++◌, Option, none, some, ◌≡◌, refl, ap, ◌∙◌, ◌⊎◌, inl, inr,
  arith, Bytes, length, drop,
}
use brazen.Framing.Peel.{Boundary}
use brazen.Framing.Sse.{terminator, or_later, find_frame_end}

or_later-eq-some :
    (o later : Option ℕ) {n : ℕ}
    → or_later o later ≡ some n
    → (o ≡ some n) ⊎ ((k : ℕ) × (o ≡ none) × (later ≡ some k) × (n ≡ suc k))
unfolding or_later
or_later-eq-some (some m) later h = inl h
or_later-eq-some none none h = cc
or_later-eq-some none (some k) h = inr (k, refl, refl, cc)

find_frame_end-cons :
    (b : ℕ) (bs : Bytes)
    → find_frame_end (b ∷ bs) ≡ or_later (terminator (b ∷ bs)) (find_frame_end bs)
unfolding find_frame_end
find_frame_end-cons b bs = refl

find-cases :
    (b : ℕ) (bs : Bytes) {n : ℕ}
    → find_frame_end (b ∷ bs) ≡ some n
    → (terminator (b ∷ bs) ≡ some n)
      ⊎ ((k : ℕ) × (terminator (b ∷ bs) ≡ none) × (find_frame_end bs ≡ some k) × (n ≡ suc k))
find-cases b bs h = or_later-eq-some _ _ (rw find_frame_end-cons at h)

terminator_bounds : (buf : Bytes) (n : ℕ) → terminator buf ≡ some n → (0 < n) × (n ≤ length buf)
unfolding terminator
terminator_bounds [] n h = ground arith
terminator_bounds (a ∷ []) n h = ground arith
terminator_bounds (a ∷ b ∷ []) n h = ground arith
terminator_bounds (a ∷ b ∷ c ∷ []) n h = ground arith
terminator_bounds (a ∷ b ∷ c ∷ d ∷ bs) n h = ground arith

terminator-append :
    (buf more : Bytes) (n : ℕ) → terminator buf ≡ some n → terminator (buf ++ more) ≡ some n
unfolding terminator
terminator-append [] m n h = cc
terminator-append (a ∷ []) m n h = ground arith
terminator-append (a ∷ b ∷ []) m n h = ground arith
terminator-append (a ∷ b ∷ c ∷ []) m n h = ground arith
terminator-append (a ∷ b ∷ c ∷ d ∷ bs) m n h = ground arith

-- Four bytes decide.
terminator_long :
    (a b c d : ℕ) (bs more : Bytes)
    → terminator (a ∷ b ∷ c ∷ d ∷ (bs ++ more)) ≡ terminator (a ∷ b ∷ c ∷ d ∷ bs)
unfolding terminator
terminator_long a b c d bs m = refl

-- A blank line that starts later leaves no room for one across the end of the buffer.
terminator-none :
    (a : ℕ) (bs more : Bytes) (k : ℕ)
    → terminator (a ∷ bs) ≡ none
    → find_frame_end bs ≡ some k
    → terminator (a ∷ (bs ++ more)) ≡ none
terminator-none a [] m k h e = unfold find_frame_end in cc
terminator-none a (b ∷ []) m k h e = unfold find_frame_end in ground arith
terminator-none a (b ∷ c ∷ []) m k h e = unfold find_frame_end in ground arith
terminator-none a (b ∷ c ∷ d ∷ bs) m k h e = terminator_long a b c d bs m ∙ h

positive : (buf : Bytes) (n : ℕ) → find_frame_end buf ≡ some n → 0 < n
positive [] n h = unfold find_frame_end in cc
positive (b ∷ bs) n h = elim (find-cases b bs h) [
  | inl e ↦ (terminator_bounds (b ∷ bs) n e).0
  | inr (k, _, _, e) ↦ omega arith
]

within : (buf : Bytes) (n : ℕ) → find_frame_end buf ≡ some n → n ≤ length buf
within [] n h = unfold find_frame_end in cc
within (b ∷ bs) n h = elim (find-cases b bs h) [
  | inl e ↦ (terminator_bounds (b ∷ bs) n e).1
  | inr (k, _, l, e) ↦ omega (arith, within bs k l)
]

stable :
    (buf more : Bytes) (n : ℕ) → find_frame_end buf ≡ some n → find_frame_end (buf ++ more) ≡ some n
stable [] m n h = unfold find_frame_end in cc
stable (b ∷ bs) m n h = rw (find_frame_end-cons b (bs ++ m)) (elim (find-cases b bs h) [
  | inl e ↦ rw (terminator-append (b ∷ bs) m n e) (unfold or_later in refl)
  | inr (k, t, l, e) ↦
      rw (terminator-none b bs m k t l, stable bs m k l, e) (unfold or_later in refl)
])

pub find_frame_end-Boundary : Boundary find_frame_end
find_frame_end-Boundary = record { positive = positive; within = within; stable = stable }

abbrev pub shift : ℕ → Option ℕ → Option ℕ
shift k none = none
shift k (some n) = some (k + n)

pub shift_zero : (o : Option ℕ) → shift 0 o ≡ o
shift_zero none = refl
shift_zero (some n) = ap some (omega arith)

or_later-eq-none : (o later : Option ℕ) → or_later o later ≡ none → (o ≡ none) × (later ≡ none)
unfolding or_later
or_later-eq-none (some n) later h = cc
or_later-eq-none none none h = (refl, refl)
or_later-eq-none none (some n) h = cc

shift-suc : (k : ℕ) (o : Option ℕ) → shift (suc k) o ≡ or_later none (shift k o)
unfolding or_later
shift-suc k none = refl
shift-suc k (some n) = ap some (omega arith)

three_off : (k : ℕ) → suc (suc (suc k)) - 3 ≡ k
three_off k = omega arith

-- In a buffer with no blank line, the search of the buffer with more bytes may start three bytes
-- before its old end.
pub find_frame_end-resume :
    (buf more : Bytes)
    → find_frame_end buf ≡ none
    → shift (length buf - 3) (find_frame_end (drop (length buf - 3) (buf ++ more)))
      ≡ find_frame_end (buf ++ more)
find_frame_end-resume [] m h = shift_zero _
find_frame_end-resume (a ∷ []) m h = shift_zero _
find_frame_end-resume (a ∷ b ∷ []) m h = shift_zero _
find_frame_end-resume (a ∷ b ∷ c ∷ []) m h = shift_zero _
find_frame_end-resume (a ∷ b ∷ c ∷ d ∷ bs) m h =
    let (t, rest) = or_later-eq-none _ _ (rw find_frame_end-cons at h) in
    let ih = rw (three_off (length bs)) at (find_frame_end-resume (b ∷ c ∷ d ∷ bs) m rest) in
    rw
      (
        three_off (suc (length bs)),
        find_frame_end-cons a (b ∷ c ∷ d ∷ (bs ++ m)),
        terminator_long a b c d bs m,
        t,
      )
      (shift-suc (length bs) _ ∙ ap (or_later none) ih)
