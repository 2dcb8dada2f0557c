-- ===== src/Framing/Peel.antt =====
-- The loop that every buffering framer runs: as long as `find` sees a boundary in the buffer, the
-- bytes before it are cut off the front and handed to `emit`. The interface `Boundary` is what the
-- two framers provide; the results are in terms of `Peels`, which has no fuel.
use mathlib.Core.Path.{subst}
use brazen.Base.{
  ℕ, zero, suc, ◌≤◌, ◌<◌, List, [], ◌++◌, Option, none, some, ◌≡◌, refl, inl, inr, Option-cases,
  arith, Bytes, length, take, drop, length-drop, take-append, drop-append, option_list,
  append_assoc,
}

-- `find buf` is the index past the first boundary of `buf`, and bytes that come later do not move
-- it.
pub record Boundary (find : Bytes → Option ℕ) : Type 0 where
  pub positive : (buf : Bytes) (n : ℕ) → find buf ≡ some n → 0 < n
  pub within : (buf : Bytes) (n : ℕ) → find buf ≡ some n → n ≤ length buf
  pub stable : (buf more : Bytes) (n : ℕ) → find buf ≡ some n → find (buf ++ more) ≡ some n

-- Cutting `buf` at its boundaries gives `out` and leaves `rest`.
pub data Peels {ℓ} {A : Type ℓ} (find : Bytes → Option ℕ) (emit : Bytes → Option A)
    : Bytes → List A → Bytes → Type ℓ where
  done : {buf : Bytes} → find buf ≡ none → Peels find emit buf [] buf
  more :
      {buf : Bytes} {out : List A} {rest : Bytes} (n : ℕ)
      → find buf ≡ some n
      → Peels find emit (drop n buf) out rest
      → Peels find emit buf (option_list (emit (take n buf)) ++ out) rest

module _ {ℓ} {A : Type ℓ} (find : Bytes → Option ℕ) (emit : Bytes → Option A) where
  -- The `while let` loop, on fuel: what is emitted, and the buffer that is left.
  unfoldable pub peel : ℕ → Bytes → List A × Bytes
  peel zero buf = ([], buf)
  peel (suc fuel) buf = elim (find buf) [
    | none ↦ ([], buf)
    | some n ↦
        let (out, rest) = peel fuel (drop n buf) in (option_list (emit (take n buf)) ++ out, rest)
  ]

module _ {ℓ} {A : Type ℓ} {find : Bytes → Option ℕ} {emit : Bytes → Option A} where
  pub find-rest :
      {buf rest : Bytes} {out : List A} → Peels find emit buf out rest → find rest ≡ none
  find-rest (done h) = h
  find-rest (more n h p) = find-rest p

  -- Cutting is a function of the buffer.
  pub Peels-unique :
      {buf rest rest' : Bytes} {out out' : List A}
      → Peels find emit buf out rest
      → Peels find emit buf out' rest'
      → (out ≡ out') × (rest ≡ rest')
  Peels-unique (done h) (done h') = (refl, refl)
  Peels-unique (done h) (more n h' p) = cc
  Peels-unique (more n h p) (done h') = cc
  Peels-unique {buf} {rest' = r} (more n h p) (more {out = o'} n' h' p') =
      let same : n' ≡ n = cc in
      let (outs, rests) = Peels-unique p (subst (λ k. Peels find emit (drop k buf) o' r) same p') in
      (cc, rests)

  module _ (b : Boundary find) where
    -- Fuel for one round a byte is enough: the loop ends by its own test.
    pub peel-Peels :
        (fuel : ℕ) (buf : Bytes)
        → length buf ≤ fuel
        → Peels find emit buf (peel find emit fuel buf).0 (peel find emit fuel buf).1
    unfolding peel
    peel-Peels zero buf h = elim (Option-cases (find buf)) [
      | inl e ↦ done e
      | inr (n, e) ↦ absurd (omega (arith, b.positive buf n e, b.within buf n e))
    ]
    peel-Peels (suc fuel) buf h = elim (Option-cases (find buf)) [
      | inl e ↦ rw (e, peel) (done e)
      | inr (n, e) ↦
          rw (e, peel)
            (more n e (
              peel-Peels fuel (drop n buf)
                (omega (arith, b.positive buf n e, b.within buf n e, length-drop n buf))))
    ]

    -- What is cut off first stays cut off when more bytes come.
    pub Peels-append :
        {buf rest rest' : Bytes} {out out' : List A} (more_bytes : Bytes)
        → Peels find emit buf out rest
        → Peels find emit (rest ++ more_bytes) out' rest'
        → Peels find emit (buf ++ more_bytes) (out ++ out') rest'
    Peels-append c (done h) q = q
    Peels-append {buf} c (more n h p) q =
        let fits = b.within buf n h in
        rw (append_assoc, ← take-append n buf c fits)
          (more n (b.stable buf c n h) (rw (drop-append n buf c fits) (Peels-append c p q)))
