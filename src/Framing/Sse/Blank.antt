-- ===== src/Framing/Sse/Blank.antt =====
-- src/protocol/sse.rs: the blank lines that end a frame.
use brazen.Base.{ℕ, [], ◌∷◌, ◌++◌, Option, none, some, ◌≡◌, ◌≢◌, refl, Bytes, starts_with}
use brazen.Framing.Sse.{terminator, or_later, find_frame_end}

-- The two blank lines that end a frame.
pub data BlankLine : Bytes → Type 0 where
  lf : BlankLine (10 ∷ 10 ∷ [])
  crlf : BlankLine (13 ∷ 10 ∷ 13 ∷ 10 ∷ [])

-- A blank line anywhere in some bytes.
unfoldable pub HasBlankLine : Bytes → Type 0
HasBlankLine bytes =
    (before : Bytes) × (blank : Bytes) × (after : Bytes) × BlankLine blank
    × (bytes ≡ before ++ blank ++ after)

or_later-none : (o later : Option ℕ) → or_later o later ≡ none → (o ≡ none) × (later ≡ none)
unfolding or_later
or_later-none none none h = (refl, refl)
or_later-none none (some n) h = absurd cc
or_later-none (some m) later h = absurd cc

terminator-BlankLine :
    {blank : Bytes} (after : Bytes) → BlankLine blank → terminator (blank ++ after) ≢ none
unfolding terminator starts_with
terminator-BlankLine after lf h = cc
terminator-BlankLine after crlf h = cc

find_frame_end-cons :
    (b : ℕ) (bs : Bytes)
    → find_frame_end (b ∷ bs) ≡ none
    → (terminator (b ∷ bs) ≡ none) × (find_frame_end bs ≡ none)
unfolding find_frame_end
find_frame_end-cons b bs h = or_later-none (terminator (b ∷ bs)) (find_frame_end bs) h

pub find_frame_end-BlankLine :
    {blank : Bytes} (before after : Bytes)
    → BlankLine blank
    → find_frame_end (before ++ blank ++ after) ≢ none
find_frame_end-BlankLine [] after lf h =
    terminator-BlankLine after lf (find_frame_end-cons 10 (10 ∷ after) h).0
find_frame_end-BlankLine [] after crlf h =
    terminator-BlankLine after crlf (find_frame_end-cons 13 (10 ∷ 13 ∷ 10 ∷ after) h).0
find_frame_end-BlankLine {blank} (b ∷ before) after b_line h =
    find_frame_end-BlankLine before after b_line
      (find_frame_end-cons b (before ++ blank ++ after) h).1
