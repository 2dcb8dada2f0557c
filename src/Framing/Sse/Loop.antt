-- ===== src/Framing/Sse/Loop.antt =====
-- src/protocol/sse.rs: the loop of `SseDecoder::push`, with its resume offset.
use brazen.Base.{
  ℕ, zero, suc, ◌+◌, ◌≤◌, [], ◌∷◌, none, some, ◌≡◌, refl, ap, inl, inr, arith, Bytes, length, drop,
  Option-cases, length-drop,
}
use brazen.Framing.Peel.{Boundary, Peels, done, more}
use brazen.Framing.Sse.{SseDecoder, find_frame_end, parse_block, frame_loop}
use brazen.Framing.Sse.Boundary.{find_frame_end-Boundary, shift, shift_zero}

-- The search may start at `scan`: it finds what a search from the start finds.
abbrev pub Resumes : SseDecoder → Type 0
Resumes d = shift d.scan (find_frame_end (drop d.scan d.buf)) ≡ find_frame_end d.buf

abbrev pub boundary : Boundary find_frame_end
boundary = find_frame_end-Boundary

empty : (buf : Bytes) → length buf ≤ 0 → find_frame_end buf ≡ none
empty [] h = unfold find_frame_end in refl
empty (b ∷ bs) h = absurd (omega arith)

none_left :
    (d : SseDecoder)
    → Resumes d
    → find_frame_end (drop d.scan d.buf) ≡ none
    → find_frame_end d.buf ≡ none
none_left d h e = cc (h, ap (shift d.scan) e)

some_left :
    (d : SseDecoder)
    → Resumes d
    → (n : ℕ) → find_frame_end (drop d.scan d.buf) ≡ some n
    → find_frame_end d.buf ≡ some (d.scan + n)
some_left d h n e = cc (h, ap (shift d.scan) e)

-- The loop with a resume offset cuts the buffer at its blank lines.
pub frame_loop-Peels :
    (fuel : ℕ) (d : SseDecoder)
    → Resumes d
    → length d.buf ≤ fuel
    → Peels find_frame_end parse_block d.buf (frame_loop fuel d).0 (frame_loop fuel d).1.buf
unfolding frame_loop
frame_loop-Peels zero d h f = done (empty d.buf f)
frame_loop-Peels (suc fuel) d h f = elim (Option-cases (find_frame_end (drop d.scan d.buf))) [
  | inl e ↦ rw (e, frame_loop) (done (none_left d h e))
  | inr (n, e) ↦
      let here = some_left d h n e in
      let rest = record d { buf = drop (d.scan + n) d.buf; scan = 0 } in
      rw (e, frame_loop)
        (more (d.scan + n) here (
          frame_loop-Peels fuel rest (shift_zero _) (
            omega (
              arith,
              boundary.positive d.buf _ here,
              boundary.within d.buf _ here,
              length-drop (d.scan + n) d.buf,
            ))))
]

pub bom_stripped-frame_loop :
    (fuel : ℕ) (d : SseDecoder) → (frame_loop fuel d).1.bom_stripped ≡ d.bom_stripped
unfolding frame_loop
bom_stripped-frame_loop zero d = refl
bom_stripped-frame_loop (suc fuel) d = elim (Option-cases (find_frame_end (drop d.scan d.buf))) [
  | inl e ↦ rw (e, frame_loop)
  | inr (n, e) ↦
      rw (e, frame_loop)
        (bom_stripped-frame_loop fuel (record d { buf = drop (d.scan + n) d.buf; scan = 0 }))
]
