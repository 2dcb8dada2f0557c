-- ===== src/Framing/Lines.antt =====
-- src/protocol/sse.rs: the NDJSON and identity framers.
pub mod Chunks
use brazen.Base.{
  ℕ, zero, suc, List, [], ◌∷◌, ◌++◌, Option, none, some, Bytes, length, ◌==◌, if◌then◌else◌,
  option_list,
}
use brazen.Framing.Frame.{Frame}
use brazen.Framing.Peel.{peel}

-- `NdjsonDecoder`: its one field is the buffer.
pub record NdjsonDecoder : Type 0 where
  pub buf : Bytes

abbrev pub new : NdjsonDecoder
new = record { buf = [] }

-- `buf.iter().position(|&b| b == b'\n')`, and one past it: the length of `drain(..=nl)`.
unfoldable pub line_end : Bytes → Option ℕ
line_end [] = none
line_end (b ∷ bs) =
    let rest = line_end bs in
    if b == b'\n' then some 1 else elim rest [ none ↦ none | some n ↦ some (suc n) ]

-- `Vec::pop`, with no use of the byte.
unfoldable pub pop : Bytes → Bytes
pop [] = []
pop (b ∷ []) = []
pop (b ∷ c ∷ bs) = b ∷ pop (c ∷ bs)

-- `line.last() == Some(&b'\r')`, then `pop`.
unfoldable pub pop_cr : Bytes → Bytes
pop_cr [] = []
pop_cr (b ∷ []) = if b == b'\r' then [] else b ∷ []
pop_cr (b ∷ c ∷ bs) = b ∷ pop_cr (c ∷ bs)

abbrev to_frame : Bytes → Option Frame
to_frame [] = none
to_frame (b ∷ bs) = some (record { event = none; data' = b ∷ bs; status = none })

unfoldable pub line_frame : Bytes → Option Frame
unfolding pop_cr
line_frame line = to_frame (pop_cr line)

-- The body of the loop of `push`: the drained bytes lose their newline.
unfoldable pub emit_line : Bytes → Option Frame
unfolding pop line_frame
emit_line drained = line_frame (pop drained)

-- Each round removes a byte at least, so the length of the buffer is fuel enough.
unfoldable pub push : NdjsonDecoder → Bytes → List Frame × NdjsonDecoder
push d chunk =
    let buf = d.buf ++ chunk in
    let (frames, rest) = peel line_end emit_line (length buf) buf in (frames, record { buf = rest })

unfoldable pub finish : NdjsonDecoder → List Frame × NdjsonDecoder
finish d = (option_list (line_frame d.buf), record { buf = [] })

-- The loop over the chunks of a response body, and the flush behind it.
unfoldable pub feed : NdjsonDecoder → List Bytes → List Frame × NdjsonDecoder
feed d [] = ([], d)
feed d (chunk ∷ chunks) =
    let (frames, d') = push d chunk in let (later, d'') = feed d' chunks in (frames ++ later, d'')

unfoldable pub decode_lines : List Bytes → List Frame
decode_lines chunks = let (frames, d) = feed new chunks in frames ++ (finish d).0

-- `IdentityDecoder::push`: each chunk is one frame.
unfoldable pub identity_push : Bytes → List Frame
identity_push chunk = record { event = none; data' = chunk; status = none } ∷ []
