-- ===== src/Framing/Lines/Chunks.antt =====
-- src/protocol/sse.rs: the framing of an NDJSON stream that comes in chunks.
use mathlib.Core.List.{flatten}
use brazen.Base.{
  ℕ, ◌≤◌, ◌<◌, List, [], ◌∷◌, ◌++◌, some, ◌≡◌, refl, inl, inr, arith, Bytes, length, append-nil,
  append_assoc, Option-cases,
}
use brazen.Framing.Frame.{Frame}
use brazen.Framing.Peel.{Boundary, Peels, done, peel-Peels, Peels-append, Peels-unique}
use brazen.Framing.Lines.{NdjsonDecoder, new, line_end, emit_line, push, feed, decode_lines}

positive : (buf : Bytes) (n : ℕ) → line_end buf ≡ some n → 0 < n
unfolding line_end
positive [] n h = cc
positive (b ∷ bs) n h = ground arith

within : (buf : Bytes) (n : ℕ) → line_end buf ≡ some n → n ≤ length buf
unfolding line_end
within [] n h = cc
within (b ∷ bs) n h = elim (Option-cases (line_end bs)) [
  | inl e ↦ ground arith
  | inr (k, e) ↦ ground (arith, within bs k e)
]

stable : (buf more : Bytes) (n : ℕ) → line_end buf ≡ some n → line_end (buf ++ more) ≡ some n
unfolding line_end
stable [] m n h = cc
stable (b ∷ bs) m n h = elim (Option-cases (line_end bs)) [
  | inl e ↦ ground arith
  | inr (k, e) ↦ ground (arith, stable bs m k e)
]

abbrev boundary : Boundary line_end
boundary = record { positive = positive; within = within; stable = stable }

-- The decoder holds what is left when the lines of the stream are cut off.
abbrev Framed : Bytes → List Frame → NdjsonDecoder → Type 0
Framed stream out d = Peels line_end emit_line stream out d.buf

push-Framed :
    (stream chunk : Bytes) (out : List Frame) (d : NdjsonDecoder)
    → Framed stream out d
    → Framed (stream ++ chunk) (out ++ (push d chunk).0) (push d chunk).1
unfolding push
push-Framed s c out d p =
    Peels-append boundary c p (peel-Peels boundary (length (d.buf ++ c)) (d.buf ++ c) (omega arith))

feed-Framed :
    (chunks : List Bytes) (stream : Bytes) (out : List Frame) (d : NdjsonDecoder)
    → Framed stream out d
    → Framed (stream ++ flatten chunks) (out ++ (feed d chunks).0) (feed d chunks).1
unfolding feed flatten
feed-Framed [] s out d p = rw (append-nil s, append-nil out) p
feed-Framed (c ∷ cs) s out d p =
    rw (← append_assoc s c (flatten cs), ← append_assoc out (push d c).0 _)
      (feed-Framed cs (s ++ c) _ _ (push-Framed s c out d p))

Framed-new : Framed [] [] new
unfolding line_end
Framed-new = done refl

flatten_one : (bytes : Bytes) → flatten (bytes ∷ []) ≡ bytes
unfolding flatten
flatten_one bytes = append-nil bytes

feed-flatten : (chunks : List Bytes) → feed new chunks ≡ feed new (flatten chunks ∷ [])
feed-flatten chunks =
    let whole = feed-Framed (flatten chunks ∷ []) [] [] new Framed-new in
    let (outs, rests) =
      Peels-unique (feed-Framed chunks [] [] new Framed-new)
        (rw (flatten_one (flatten chunks)) at whole) in
    λ i. (outs i, record { buf = rests i })

-- However the transport cuts the bytes of a response into chunks, the NDJSON frames decoded from
-- them, the flushed last line among them, are those of the uncut bytes.
pub decode_lines-flatten :
    (chunks : List Bytes) → decode_lines chunks ≡ decode_lines (flatten chunks ∷ [])
unfolding decode_lines
decode_lines-flatten chunks = rw (feed-flatten chunks)
