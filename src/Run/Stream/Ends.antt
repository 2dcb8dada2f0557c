-- ===== src/Run/Stream/Ends.antt =====
-- src/run/events/stream.rs: the last event of a stream that breaks off, whatever the dialect.
use brazen.Base.{
  Bool, true, false, List, [], ◌∷◌, ◌++◌, Option, none, some, Bytes, ◌≡◌, refl, sym, ap, ◌∙◌, ◌⊎◌,
  inl, inr, append_assoc, Bool-cases,
}
use brazen.Canonical.Json.{Json}
use brazen.Canonical.Error.{CanonicalError, transport}
use brazen.Canonical.Event.{Event, error}
use brazen.Protocol.State.{Protocol}
use brazen.Run.Stream.{
  Core, transport_err, close_open_blocks, premature_eof, premature_eof_with_body, feed_chunk,
  drop_stream, end_stream, finish_body,
}
use brazen.Run.Stream.Lazy.{collect}

-- Does a read of the body fail?
unfoldable pub has_failed_read : List (Option Bytes) → Bool
has_failed_read [] = false
has_failed_read (none ∷ rest) = true
has_failed_read (some chunk ∷ rest) = has_failed_read rest

module _ {V : Type 0} where
  -- The last event is a transport error.
  pub record BreaksOff (evs : List (Event V)) : Type 0 where
    pub before : List (Event V)
    pub last : CanonicalError V
    pub ends : evs ≡ before ++ error last ∷ []
    pub kind : last.kind ≡ transport

  BreaksOff-append :
      (xs : List (Event V)) {ys : List (Event V)} → BreaksOff ys → BreaksOff (xs ++ ys)
  BreaksOff-append xs {ys} h = record {
    before = xs ++ h.before;
    last = h.last;
    ends = ap (λ zs. xs ++ zs) h.ends ∙ sym (append_assoc xs h.before (error h.last ∷ []));
    kind = h.kind;
  }

module _ (j : Json) (proto : Protocol j.Value) where
  open j use {Value}

  pub premature_eof-transport :
      (c : Core Value)
      → (e : CanonicalError Value) × (premature_eof j proto c ≡ error e) × (e.kind ≡ transport)
  unfolding premature_eof premature_eof_with_body transport_err
  premature_eof-transport c = elim (Bool-cases c.saw_frame) [
    | inl e ↦ rw e (_, refl, refl)
    | inr e ↦ rw e (_, refl, refl)
  ]

  pub end_stream_done :
      (c : Core Value) → c.state.terminated ≡ true → end_stream j proto c ≡ ([], c)
  unfolding end_stream
  end_stream_done c e = rw e refl

  pub end_stream_open :
      (c : Core Value)
      → c.state.terminated ≡ false
      → (end_stream j proto c).0
        ≡ (close_open_blocks c).0 ++ premature_eof j proto (close_open_blocks c).1 ∷ []
  unfolding end_stream
  end_stream_open c e = simp e

  drop_stream-BreaksOff : (c : Core Value) → BreaksOff (drop_stream j proto c).0
  unfolding drop_stream transport_err
  drop_stream-BreaksOff c = record {
    before = (close_open_blocks c).0;
    last = _;
    ends = refl;
    kind = refl;
  }

  end_stream-BreaksOff :
      (c : Core Value)
      → (end_stream j proto c).1.state.terminated ≡ false
      → BreaksOff (end_stream j proto c).0
  end_stream-BreaksOff c open' = elim (Bool-cases c.state.terminated) [
    | inl e ↦ let stays = ap (λ r. r.1.state.terminated) (end_stream_done c e) in cc
    | inr e ↦
        let (err, is_error, k) = premature_eof-transport (close_open_blocks c).1 in
        record {
          before = (close_open_blocks c).0;
          last = err;
          ends = end_stream_open c e ∙ ap (λ ev. (close_open_blocks c).0 ++ ev ∷ []) is_error;
          kind = k;
        }
  ]

  finish_body-BreaksOff :
      (c : Core Value)
      → (finish_body j proto c).1.state.terminated ≡ false
      → BreaksOff (finish_body j proto c).0
  unfolding finish_body
  finish_body-BreaksOff c open' = BreaksOff-append _ (end_stream-BreaksOff _ open')

  pub collect-BreaksOff :
      (body : List (Option Bytes)) (c : Core Value)
      → (has_failed_read body ≡ true) ⊎ ((collect j proto body c).1.state.terminated ≡ false)
      → BreaksOff (collect j proto body c).0
  unfolding collect has_failed_read
  collect-BreaksOff [] c (inl h) = cc
  collect-BreaksOff [] c (inr h) = finish_body-BreaksOff c h
  collect-BreaksOff (none ∷ rest) c h = drop_stream-BreaksOff c
  collect-BreaksOff (some chunk ∷ rest) c h =
      BreaksOff-append _ (collect-BreaksOff rest (feed_chunk j proto chunk c).1 h)
