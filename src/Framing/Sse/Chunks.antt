-- ===== src/Framing/Sse/Chunks.antt =====
-- src/protocol/sse.rs: the framing of a stream that comes in chunks.
use mathlib.Core.List.{flatten}
use mathlib.Core.Path.{subst}
use brazen.Base.{
  ◌-◌, Bool, true, false, List, [], ◌∷◌, ◌++◌, none, ◌≡◌, refl, ap, inl, inr, arith, ◌&&◌, ltb,
  if◌then◌else◌, Bytes, length, drop, Bool-cases, starts_with, append-nil, append_assoc,
}
use brazen.Framing.Frame.{Frame}
use brazen.Framing.Peel.{Peels, Peels-unique, Peels-append, find-rest}
use brazen.Framing.Sse.{
  SseDecoder, bom, terminator, or_later, new, find_frame_end, parse_block, strip_bom, frame_loop,
  frame_buffer, push, feed, decode_stream,
}
use brazen.Framing.Sse.Blank.{HasBlankLine, find_frame_end-BlankLine}
use brazen.Framing.Sse.Boundary.{shift_zero, find_frame_end-resume}
use brazen.Framing.Sse.Loop.{Resumes, boundary, frame_loop-Peels, bom_stripped-frame_loop}

-- A stream so far that may still turn out to begin with a byte-order mark.
waits : Bytes → Bool
waits stream = ltb (length stream) (length bom) && starts_with stream bom

-- A stream without the mark that it begins with.
body : Bytes → Bytes
body stream = if starts_with bom stream then drop (length bom) stream else stream

waits-append : (s more : Bytes) → waits s ≡ false → waits (s ++ more) ≡ false
unfolding waits starts_with
waits-append [] m h = cc
waits-append (a ∷ []) m h = ground arith
waits-append (a ∷ b ∷ []) m h = ground arith
waits-append (a ∷ b ∷ c ∷ s) m h = ground arith

body-append : (s more : Bytes) → waits s ≡ false → body (s ++ more) ≡ body s ++ more
unfolding waits body starts_with
body-append [] m h = cc
body-append (a ∷ []) m h = ground arith
body-append (a ∷ b ∷ []) m h = ground arith
body-append (a ∷ b ∷ c ∷ s) m h = ground arith

abbrev settled_state : Bytes → SseDecoder
settled_state rest = record { buf = rest; scan = length rest - 3; bom_stripped = true }

-- The decoder's state after the bytes of `stream`, when `out` are the frames that it has given.
data Framed (stream : Bytes) (out : List Frame) : SseDecoder → Type 0 where
  waiting :
      waits stream ≡ true
      → out ≡ []
      → Framed stream out (record { buf = stream; scan = 0; bom_stripped = false })
  settled :
      (rest : Bytes)
      → waits stream ≡ false
      → Peels find_frame_end parse_block (body stream) out rest
      → Framed stream out (settled_state rest)

Framed-unique :
    {stream : Bytes} {out out' : List Frame} {d d' : SseDecoder}
    → Framed stream out d
    → Framed stream out' d'
    → (out ≡ out') × (d ≡ d')
Framed-unique (waiting w e) (waiting w' e') = (cc, refl)
Framed-unique (waiting w e) (settled r w' p) = absurd (cc)
Framed-unique (settled r w p) (waiting w' e') = absurd (cc)
Framed-unique (settled r w p) (settled r' w' p') =
    let (outs, rests) = Peels-unique p p' in (outs, ap settled_state rests)

abbrev fresh_state : Bytes → SseDecoder
fresh_state buf = record { buf = buf; scan = 0; bom_stripped = false }

strip_bom-stripped : (d : SseDecoder) → d.bom_stripped ≡ true → strip_bom d ≡ (true, d)
unfolding strip_bom
strip_bom-stripped d e = rw e

strip_bom-waits :
    (buf : Bytes) → waits buf ≡ true → strip_bom (fresh_state buf) ≡ (false, fresh_state buf)
unfolding strip_bom waits
strip_bom-waits buf e = ground arith

strip_bom-decided :
    (buf : Bytes)
    → waits buf ≡ false
    → strip_bom (fresh_state buf) ≡ (true, record { buf = body buf; scan = 0; bom_stripped = true })
unfolding strip_bom waits body
strip_bom-decided buf e = ground arith

frame_buffer_lem :
    (d : SseDecoder)
    → Resumes d
    → d.bom_stripped ≡ true
    → (rest : Bytes) × ((frame_buffer d).1 ≡ settled_state rest)
      × Peels find_frame_end parse_block d.buf (frame_buffer d).0 rest
unfolding frame_buffer
frame_buffer_lem d h e = (
  (frame_loop (length d.buf) d).1.buf,
  rw (bom_stripped-frame_loop (length d.buf) d, e) refl,
  frame_loop-Peels (length d.buf) d h (omega arith),
)

push-settled :
    (stream chunk rest : Bytes) (out : List Frame)
    → waits stream ≡ false
    → Peels find_frame_end parse_block (body stream) out rest
    → Framed
        (stream ++ chunk)
        (out ++ (push (settled_state rest) chunk).0)
        (push (settled_state rest) chunk).1
unfolding push
push-settled s c rest out w p =
    let d = record (settled_state rest) { buf = rest ++ c } in
    let (rest', e, q) = frame_buffer_lem d (find_frame_end-resume rest c (find-rest p)) refl in
    rw (strip_bom-stripped d refl, e)
      (settled rest' (waits-append s c w) (rw (body-append s c w) (Peels-append boundary c p q)))

push-waiting :
    (stream chunk : Bytes)
    → Framed
        (stream ++ chunk)
        (push (fresh_state stream) chunk).0
        (push (fresh_state stream) chunk).1
unfolding push
push-waiting s c = elim (Bool-cases (waits (s ++ c))) [
  | inl e ↦ rw (strip_bom-waits (s ++ c) e) (waiting e refl)
  | inr e ↦
      let d : SseDecoder = record { buf = body (s ++ c); scan = 0; bom_stripped = true } in
      let (rest', same, q) = frame_buffer_lem d (shift_zero _) refl in
      rw (strip_bom-decided (s ++ c) e, same) (settled rest' e q)
]

push-Framed :
    {stream : Bytes} {out : List Frame} {d : SseDecoder} (chunk : Bytes)
    → Framed stream out d
    → Framed (stream ++ chunk) (out ++ (push d chunk).0) (push d chunk).1
push-Framed {stream} c (waiting w e) = rw e (push-waiting stream c)
push-Framed {stream} {out} c (settled rest w p) = push-settled stream c rest out w p

feed-Framed :
    (chunks : List Bytes) (stream : Bytes) (out : List Frame) (d : SseDecoder)
    → Framed stream out d
    → Framed (stream ++ flatten chunks) (out ++ (feed d chunks).0) (feed d chunks).1
unfolding feed flatten
feed-Framed [] s out d f = rw (append-nil s, append-nil out) f
feed-Framed (c ∷ cs) s out d f =
    rw (← append_assoc s c (flatten cs), ← append_assoc out (push d c).0 _)
      (feed-Framed cs (s ++ c) _ _ (push-Framed c f))

flatten_one : (bytes : Bytes) → flatten (bytes ∷ []) ≡ bytes
unfolding flatten
flatten_one bytes = append-nil bytes

Framed-new : Framed [] [] new
unfolding waits starts_with
Framed-new = waiting refl refl

-- The frames that the decoder gives, and the state that it is left in, are the same whether the
-- bytes of a stream come as `chunks` or as one chunk.
pub feed-flatten : (chunks : List Bytes) → feed new chunks ≡ feed new (flatten chunks ∷ [])
feed-flatten chunks =
    let whole = feed-Framed (flatten chunks ∷ []) [] [] new Framed-new in
    let (outs, states) =
      Framed-unique (feed-Framed chunks [] [] new Framed-new)
        (rw (flatten_one (flatten chunks)) at whole) in
    λ i. (outs i, states i)

-- However the transport cuts the bytes of a response into chunks, the frames decoded from them,
-- the flushed last one among them, are those of the uncut bytes.
pub decode_stream-flatten :
    (chunks : List Bytes) → decode_stream chunks ≡ decode_stream (flatten chunks ∷ [])
unfolding decode_stream
decode_stream-flatten chunks = rw (feed-flatten chunks)

waits-find_frame_end : (s : Bytes) → waits s ≡ true → find_frame_end s ≡ none
unfolding waits find_frame_end terminator or_later starts_with
waits-find_frame_end [] h = refl
waits-find_frame_end (a ∷ []) h = ground arith
waits-find_frame_end (a ∷ b ∷ []) h = ground arith
waits-find_frame_end (a ∷ b ∷ c ∷ s) h = ground arith

Framed-find_frame_end :
    {stream : Bytes} {out : List Frame} {d : SseDecoder}
    → Framed stream out d
    → find_frame_end d.buf ≡ none
Framed-find_frame_end {stream} (waiting w e) = waits-find_frame_end stream w
Framed-find_frame_end (settled rest w p) = find-rest p

-- Whatever the chunks, the decoder keeps no complete frame back: no blank line, in either of the two
-- spellings, stands anywhere in the bytes that it still holds after them.
pub feed-HasBlankLine : (chunks : List Bytes) → ¬ HasBlankLine (feed new chunks).1.buf
unfolding HasBlankLine
feed-HasBlankLine chunks (before, blank, after, is_blank, e) =
    find_frame_end-BlankLine before after is_blank (
      subst (λ bytes. find_frame_end bytes ≡ none) e
        (Framed-find_frame_end (feed-Framed chunks [] [] new Framed-new)))
