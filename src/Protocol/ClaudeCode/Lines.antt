-- ===== src/Protocol/ClaudeCode/Lines.antt =====
-- src/protocol/claude_code/decode.rs: a body and its lines, and the line that ends a run.
use mathlib.Core.Path.{subst}
use brazen.Base.{
  Option, none, some, ℕ, ◌%◌, ◌^◌, ◌≢◌, if◌then◌else◌, bytes_eq_iff, Bool, true, false, List, [],
  ◌∷◌, ◌++◌, some, Bytes, str, bytes_eq, ◌≡◌, refl, sym, ap, ◌∙◌, inl, inr, arith, Bool-cases,
  append_assoc,
}
use brazen.Base.Result.{ok, err}
use brazen.Canonical.Json.{Json}
use brazen.Canonical.Error.{CanonicalError, ErrorKind, auth, transport, from_http_status}
use brazen.Canonical.Event.{Event, error}
use brazen.Framing.Sse.{split_on}
use brazen.Protocol.Access.{parse}
use brazen.Protocol.ClaudeCode.{
  Answer, prepend, and_then, is_true, is_auth_tag, result_kind, is_blank, line_frame, result_error,
  no_stream, result_events, line_value, decode, next_line, decode_lines, decode_full,
}
use brazen.Protocol.State.{DecodeState}

-- A separator cuts a body in two.
split_on-append :
    (piece a b : Bytes) → split_on 10 piece (a ++ 10 ∷ b) ≡ split_on 10 piece a ++ split_on 10 [] b
unfolding split_on
split_on-append piece [] b = refl
split_on-append piece (x ∷ a) b =
    rw (split_on-append [] a b, split_on-append (piece ++ x ∷ []) a b) (ground arith)

module _ {V : Type 0} where
  prepend_nil : (r : Answer V) → prepend [] r ≡ r
  prepend_nil (ok evs, s) = refl
  prepend_nil (err e, s) = refl

  prepend-append :
      (evs more : List (Event V)) (r : Answer V)
      → prepend (evs ++ more) r ≡ prepend evs (prepend more r)
  prepend-append evs more (ok rest, s) = ap (λ es. (ok es, s)) (append_assoc evs more rest)
  prepend-append evs more (err e, s) = refl

  prepend-and_then :
      (evs : List (Event V)) (r : Answer V) (next : DecodeState V → Answer V)
      → and_then (prepend evs r) next ≡ prepend evs (and_then r next)
  unfolding and_then
  prepend-and_then evs (ok more, s) next = prepend-append evs more (next s)
  prepend-and_then evs (err e, s) next = refl

  and_then_assoc :
      (r : Answer V) (f g : DecodeState V → Answer V)
      → and_then (and_then r f) g ≡ and_then r (λ s. and_then (f s) g)
  unfolding and_then
  and_then_assoc (ok evs, s) f g = prepend-and_then evs (f s) g
  and_then_assoc (err e, s) f g = refl

-- The kind of the error of a failed run, from the status that the line relays and the tag that an
-- earlier line left.
pub data FailedKind : Option ℕ → Option Bytes → ErrorKind → Type 0 where
  relayed :
      (status : ℕ) {tag : Option Bytes}
      → FailedKind (some status) tag (from_http_status (status % 2 ^ 16))
  logged_out : FailedKind none (some (str "authentication_failed")) auth
  unexplained :
      {tag : Option Bytes}
      → tag ≢ some (str "authentication_failed")
      → FailedKind none tag transport

not_auth_tag :
    (tag : Bytes)
    → bytes_eq tag (str "authentication_failed") ≡ false
    → Path (Option Bytes) (some tag) (some (str "authentication_failed"))
    → ⊥
not_auth_tag tag h e =
    let same : tag ≡ str "authentication_failed" = cc in
    let yes = (bytes_eq_iff tag (str "authentication_failed")).1 same in cc

tag-FailedKind :
    (tag : Option Bytes) → FailedKind none tag (if is_auth_tag tag then auth else transport)
tag-FailedKind none = unexplained (λ e. cc)
tag-FailedKind (some tag) = elim (Bool-cases (bytes_eq tag (str "authentication_failed"))) [
  | inl h ↦
      let e : tag ≡ str "authentication_failed" =
        (bytes_eq_iff tag (str "authentication_failed")).0 h in
      rw h (subst (λ x. FailedKind none (some x) auth) (sym e) logged_out)
  | inr h ↦ rw h (unexplained (not_auth_tag tag h))
]

result_kind-FailedKind :
    (j : Json) (status : Option ℕ) (tag : Option Bytes)
    → FailedKind status tag (result_kind j status tag)
unfolding result_kind
result_kind-FailedKind j (some status) tag = relayed status
result_kind-FailedKind j none tag = tag-FailedKind tag

module _ (j : Json) where
  open j use {Value, at_key, as_str, as_u64, as_bool}

  next_line-append :
      (blank : Bool) (f g : DecodeState Value → Answer Value) (answer : Answer Value)
      (s : DecodeState Value)
      → next_line j blank (λ s'. and_then (f s') g) answer s
        ≡ and_then (next_line j blank f answer s) g
  unfolding next_line
  next_line-append true f g answer s = refl
  next_line-append false f g answer s = sym (and_then_assoc answer f g)

  decode_lines-append :
      (xs ys : List Bytes) (s : DecodeState Value)
      → decode_lines j (xs ++ ys) s ≡ and_then (decode_lines j xs s) (decode_lines j ys)
  unfolding decode_lines and_then
  decode_lines-append [] ys s = sym (prepend_nil (decode_lines j ys s))
  decode_lines-append (line ∷ xs) ys s =
      ap (λ rest. next_line j (is_blank line) rest (decode j (line_frame line) s) s)
        (λ i s'. decode_lines-append xs ys s' i)
      ∙ next_line-append (is_blank line) (decode_lines j xs) (decode_lines j ys)
          (decode j (line_frame line) s) s

  -- A complete body that a newline joins of two parts, each of any number of lines, is decoded as
  -- its first part, and then its second part from the state that the first one leaves: the events
  -- follow each other, and an error in the first part is the answer.
  pub decode_full-append :
      (a b : Bytes) (s : DecodeState Value)
      → decode_full j (a ++ 10 ∷ b) s ≡ and_then (decode_full j a s) (decode_full j b)
  unfolding decode_full
  decode_full-append a b s =
      ap (λ lines. decode_lines j lines s) (split_on-append [] a b)
      ∙ decode_lines-append (split_on 10 [] a) (split_on 10 [] b) s

  abbrev is_error : Value → Bool
  is_error v = is_true (as_bool (at_key v (str "is_error")))

  -- The answer of the last line of a run, in three cases that exclude each other: one error where
  -- the line is marked as one; nothing where it is not and an earlier line has set the terminal
  -- marker; one error of the kind of a failed transport where none has. An error carries the line.
  pub data Verdict (v : Value) (s : DecodeState Value) : List (Event Value) → Type 0 where
    failed :
        (e : CanonicalError Value)
        → is_error v ≡ true
        → FailedKind (as_u64 (at_key v (str "api_error_status"))) s.error_tag e.kind
        → e.provider_detail ≡ some v
        → Verdict v s (error e ∷ [])
    done : is_error v ≡ false → s.terminated ≡ true → Verdict v s []
    empty :
        (e : CanonicalError Value)
        → is_error v ≡ false
        → s.terminated ≡ false
        → e.kind ≡ transport
        → e.provider_detail ≡ some v
        → Verdict v s (error e ∷ [])

  result_events-Verdict : (v : Value) (s : DecodeState Value) → Verdict v s (result_events j v s).0
  unfolding result_events result_error no_stream
  result_events-Verdict v s = elim (Bool-cases (is_error v)) [
    | inl h ↦ rw h (
        failed (result_error j v (record s { terminated = true })) h
          (result_kind-FailedKind j _ s.error_tag) refl)
    | inr h ↦ elim (Bool-cases s.terminated) [
      | inl t ↦ simp (h, t) (done h t)
      | inr t ↦ simp (h, t) (empty (no_stream j v) h t refl refl)
    ]
  ]

  result_events-state :
      (v : Value) (s : DecodeState Value) → (result_events j v s).1 ≡ record s { terminated = true }
  unfolding result_events
  result_events-state v s = ground arith

  -- A line that parses to a value of the type `result` sets the terminal marker and nothing else of
  -- the state, whatever the state. Its events are one error that carries the line where the line is
  -- marked as an error; none where it is not and the terminal marker is set already; and one error
  -- of the kind of a failed transport, with the line, where no line before has set the marker. The
  -- kind of the first is that of the status, cut to 16 bits, that the line relays; without a status
  -- that of missing credentials where an earlier line left that tag, and else a failed transport.
  pub decode-Verdict :
      (line : Bytes) (v : Value) (s : DecodeState Value)
      → parse j line ≡ ok v
      → as_str (at_key v (str "type")) ≡ some (str "result")
      → ((decode j (line_frame line) s).1 ≡ record s { terminated = true })
        × (evs : List (Event Value)) × ((decode j (line_frame line) s).0 ≡ ok evs)
        × Verdict v s evs
  unfolding decode line_value bytes_eq str
  decode-Verdict line v s p t =
      rw (p, t) (result_events-state v s, (result_events j v s).0, refl, result_events-Verdict v s)
