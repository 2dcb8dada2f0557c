-- ===== src/Framing/Sse.antt =====
-- src/protocol/sse.rs, `SseDecoder`: the framer of the SSE dialects.
pub mod Boundary
pub mod Blank
mod Loop
pub mod Chunks
use brazen.Base.{
  ℕ, zero, suc, ◌+◌, ◌-◌, Bool, true, false, not, ◌&&◌, List, [], ◌∷◌, ◌++◌, Option, none, some,
  Bytes, str, length, take, drop, ltb, ◌==◌, if◌then◌else◌, bytes_eq, starts_with, option_list,
}
use brazen.Framing.Frame.{Frame}
use brazen.Framing.Utf8.{from_utf8_lossy}

-- `const BOM`
abbrev pub bom : Bytes
bom = 0xEF ∷ 0xBB ∷ 0xBF ∷ []

pub record SseDecoder : Type 0 where
  pub buf : Bytes
  pub scan : ℕ
  pub bom_stripped : Bool

-- `SseDecoder::default()`
abbrev pub new : SseDecoder
new = record { buf = []; scan = 0; bom_stripped = false }

-- The length of the blank line that `buf` begins with.
unfoldable pub terminator : Bytes → Option ℕ
unfolding starts_with
terminator buf =
    if starts_with (b'\n' ∷ b'\n' ∷ []) buf
    then some 2
    else if starts_with (b'\r' ∷ b'\n' ∷ b'\r' ∷ b'\n' ∷ []) buf
    then some 4
    else none

-- The first `Some` of `find_map`, the index of what comes later counted from here.
unfoldable pub or_later : Option ℕ → Option ℕ → Option ℕ
or_later (some n) later = some n
or_later none none = none
or_later none (some n) = some (suc n)

-- The index past the first blank line.
unfoldable pub find_frame_end : Bytes → Option ℕ
unfolding terminator or_later
find_frame_end [] = none
find_frame_end (b ∷ bs) = or_later (terminator (b ∷ bs)) (find_frame_end bs)

-- `block.split(|&b| b == b'\n')`: the pieces between separators, never none of them.
unfoldable pub split_on : ℕ → Bytes → Bytes → List Bytes
split_on sep piece [] = piece ∷ []
split_on sep piece (b ∷ bs) =
    let next = split_on sep [] bs in
    let same = split_on sep (piece ++ b ∷ []) bs in if b == sep then piece ∷ next else same

-- `strip_suffix(b"\r").unwrap_or(raw_line)`
unfoldable pub strip_cr : Bytes → Bytes
strip_cr [] = []
strip_cr (b ∷ []) = if b == b'\r' then [] else b ∷ []
strip_cr (b ∷ c ∷ bs) = b ∷ strip_cr (c ∷ bs)

-- `strip_prefix(b" ").unwrap_or(value)`
unfoldable pub strip_space : Bytes → Bytes
strip_space [] = []
strip_space (b ∷ bs) = if b == b' ' then bs else b ∷ bs

-- The line cut at its first colon: the field and what is behind the colon.
unfoldable pub split_colon : Bytes → Option (Bytes × Bytes)
split_colon [] = none
split_colon (b ∷ bs) =
    let rest = split_colon bs in
    if b == b':'
    then some ([], bs)
    else elim rest [ none ↦ none | some (field, value) ↦ some (b ∷ field, value) ]

-- The locals of `parse_block`.
pub record Fields : Type 0 where
  pub event : Option Bytes
  pub data' : List Bytes

-- The `match field`, for a line that has a colon.
unfoldable pub apply_field : Bytes → Bytes → Fields → Fields
apply_field field value f =
    if bytes_eq field (str "event")
    then record f { event = some (from_utf8_lossy value) }
    else if bytes_eq field (str "data")
    then record f { data' = f.data' ++ value ∷ [] }
    else f

-- One round of the loop over the lines.
unfoldable pub apply_line : Bytes → Fields → Fields
unfolding strip_cr strip_space split_colon apply_field
apply_line raw_line f = elim (split_colon (strip_cr raw_line)) [
  | none ↦ f
  | some (field, value) ↦ apply_field field (strip_space value) f
]

unfoldable pub apply_lines : List Bytes → Fields → Fields
unfolding apply_line
apply_lines [] f = f
apply_lines (l ∷ ls) f = apply_lines ls (apply_line l f)

-- `data.join(&b'\n')`
unfoldable pub join : ℕ → List Bytes → Bytes
join sep [] = []
join sep (x ∷ []) = x
join sep (x ∷ y ∷ ys) = x ++ (sep ∷ join sep (y ∷ ys))

abbrev is_empty : Option Bytes → List Bytes → Bool
is_empty none [] = true
is_empty _ _ = false

unfoldable pub parse_block : Bytes → Option Frame
unfolding split_on apply_lines join
parse_block block =
    let f = apply_lines (split_on b'\n' [] block) (record { event = none; data' = [] }) in
    if is_empty f.event f.data'
    then none
    else some (record { event = f.event; data' = join b'\n' f.data'; status = none })

-- `strip_bom`: whether the decision about the byte-order mark is made, and the state after it.
unfoldable pub strip_bom : SseDecoder → Bool × SseDecoder
strip_bom d =
    if d.bom_stripped
    then (true, d)
    else if ltb (length d.buf) (length bom) && starts_with d.buf bom
    then (false, d)
    else if starts_with bom d.buf
    then (true, record d { buf = drop (length bom) d.buf; bom_stripped = true })
    else (true, record d { bom_stripped = true })

-- The `while let` loop of `push`, on fuel: the frames, and the state with the rest in `buf`.
unfoldable pub frame_loop : ℕ → SseDecoder → List Frame × SseDecoder
unfolding find_frame_end parse_block
frame_loop zero d = ([], d)
frame_loop (suc fuel) d = elim (find_frame_end (drop d.scan d.buf)) [
  | none ↦ ([], d)
  | some rel ↦
      let end = d.scan + rel in
      let block = take end d.buf in
      let (frames, d') = frame_loop fuel (record d { buf = drop end d.buf; scan = 0 }) in
      (option_list (parse_block block) ++ frames, d')
]

-- The part of `push` behind the early return. Each round of the loop removes a byte at least, so
-- the length of the buffer is fuel enough.
unfoldable pub frame_buffer : SseDecoder → List Frame × SseDecoder
frame_buffer d =
    let (frames, d') = frame_loop (length d.buf) d in
    (frames, record d' { scan = length d'.buf - 3 })

unfoldable pub push : SseDecoder → Bytes → List Frame × SseDecoder
push d chunk =
    let (settled, d') = strip_bom (record d { buf = d.buf ++ chunk }) in
    if settled then frame_buffer d' else ([], d')

unfoldable pub finish : SseDecoder → List Frame × SseDecoder
unfolding parse_block
finish d = (option_list (parse_block d.buf), record d { buf = [] })

-- The loop over the chunks of a response body, and the flush behind it.
unfoldable pub feed : SseDecoder → List Bytes → List Frame × SseDecoder
feed d [] = ([], d)
feed d (chunk ∷ chunks) =
    let (frames, d') = push d chunk in let (later, d'') = feed d' chunks in (frames ++ later, d'')

unfoldable pub decode_stream : List Bytes → List Frame
unfolding finish
decode_stream chunks = let (frames, d) = feed new chunks in frames ++ (finish d).0
