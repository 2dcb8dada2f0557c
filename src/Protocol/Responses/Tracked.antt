-- ===== src/Protocol/Responses/Tracked.antt =====
-- src/protocol/openai_responses/decode/: the events of a frame and the map of open blocks.
use brazen.Base.{
  ℕ, Bool, true, false, List, [], ◌∷◌, Option, none, some, Bytes, ◌≡◌, ◌⊎◌, refl, ap, ◌∙◌, inl, inr,
  arith,
}
use brazen.Base.Dict.{keys}
use brazen.Canonical.Json.{Json}
use brazen.Canonical.Event.{ContentKind, Delta, FinishReason}
use brazen.Protocol.State.{DecodeState, pure, ◌>>=◌, ◌>>◌, emit, gets, modify}
use brazen.Protocol.State.Track.{
  track, Tracks, Tracks-pure, Tracks-gets, Tracks-bind, Tracks-then, Tracks-emit, Tracks-modify,
  Tracks-start_block, Tracks-stop_block, Tracks-if,
}
use brazen.Protocol.Synth.Drain.{drain-Tracks, drain_lem}
use brazen.Protocol.Responses.{
  Kind, created, item_added, part_added, text_frag, argument_frag, thinking_frag, refusal_frag,
  item_done, completion, incompletion, failure, ignored, kind_of, claim, canonical, open_block,
  push_delta, push_encrypted, close_all, push_start, message_start, added, part, delta, refuse,
  is_image, close_item, done, handle, type_of, event,
}
use brazen.Protocol.Responses.Terminal.{push_usage, terminal, completed, incomplete}

module _ {V : Type 0} where
  claim-Tracks : (key : ℕ × ℕ) (o : Option ℕ) → Tracks (claim {V = V} key o)
  unfolding claim
  claim-Tracks key (some c) = Tracks-pure c
  claim-Tracks key none =
      Tracks-bind _ _ (Tracks-gets _)
        (λ next. Tracks-then _ _ (Tracks-modify _ (λ s. refl)) (Tracks-pure next))

  canonical-Tracks : (key : ℕ × ℕ) → Tracks (canonical {V = V} key)
  unfolding canonical
  canonical-Tracks key = Tracks-bind _ _ (Tracks-gets _) (λ o. claim-Tracks key o)

  open_block-Tracks : (key : ℕ × ℕ) (o : Option (ContentKind V)) → Tracks (open_block key o)
  unfolding open_block
  open_block-Tracks key none = Tracks-pure tt
  open_block-Tracks key (some kind) =
      Tracks-bind _ _ (canonical-Tracks key) (λ i. Tracks-start_block i kind)

  push_delta-Tracks : (o : Option ℕ) (frag : Delta V) → Tracks (push_delta o frag)
  unfolding push_delta
  push_delta-Tracks none frag = Tracks-pure tt
  push_delta-Tracks (some i) frag = Tracks-emit _ (λ ks. refl)

  push_encrypted-Tracks : (i : ℕ) (o : Option Bytes) → Tracks (push_encrypted {V = V} i o)
  unfolding push_encrypted
  push_encrypted-Tracks i none = Tracks-pure tt
  push_encrypted-Tracks i (some e) = Tracks-emit _ (λ ks. refl)

  close_all-Tracks : (enc : Option Bytes) (ks : List ℕ) → Tracks (close_all {V = V} enc ks)
  unfolding close_all
  close_all-Tracks enc [] = Tracks-pure tt
  close_all-Tracks enc (i ∷ rest) =
      Tracks-then _ _ (push_encrypted-Tracks i enc)
        (Tracks-then _ _ (Tracks-stop_block i) (close_all-Tracks enc rest))

module _ (j : Json) where
  open j use {Value, at_key, is_object}

  push_start-Tracks : (b : Bool) (v : Value) → Tracks (push_start j b v)
  unfolding push_start
  push_start-Tracks true v = Tracks-pure tt
  push_start-Tracks false v =
      Tracks-then _ _ (Tracks-modify _ (λ s. refl)) (Tracks-emit _ (λ ks. refl))

  usage-Tracks : (o : Option Value) → Tracks (push_usage j o)
  unfolding push_usage
  usage-Tracks none = Tracks-pure tt
  usage-Tracks (some u) =
      Tracks-if (is_object u) _ _ (λ _. Tracks-emit _ (λ ks. refl)) (λ _. Tracks-pure tt)

  terminal-Tracks : (v : Value) (reason : FinishReason) → Tracks (terminal j v reason)
  unfolding terminal
  terminal-Tracks v reason = Tracks-then _ _ drain-Tracks (
      Tracks-then _ _ (usage-Tracks _)
        (Tracks-then _ _ (Tracks-emit _ (λ ks. refl)) (Tracks-modify _ (λ s. refl))))

  delta-Tracks : (v : Value) (wrap : Bytes → Delta Value) → Tracks (delta j v wrap)
  unfolding delta
  delta-Tracks v wrap = Tracks-bind _ _ (Tracks-gets _) (λ o. push_delta-Tracks o _)

  close_item-Tracks : (v : Value) → Tracks (close_item j v)
  unfolding close_item
  close_item-Tracks v = Tracks-bind _ _ (Tracks-gets _) (λ ks. close_all-Tracks _ ks)

  handle-Tracks : (k : Kind) (v : Value) → is_image j v ≡ false → Tracks (handle j k v)
  unfolding handle message_start added part refuse done completed incomplete
  handle-Tracks created v h = Tracks-bind _ _ (Tracks-gets _) (λ b. push_start-Tracks b v)
  handle-Tracks item_added v h = open_block-Tracks _ _
  handle-Tracks part_added v h = open_block-Tracks _ _
  handle-Tracks text_frag v h = delta-Tracks v _
  handle-Tracks argument_frag v h = delta-Tracks v _
  handle-Tracks thinking_frag v h = delta-Tracks v _
  handle-Tracks refusal_frag v h = Tracks-modify _ (λ s. refl)
  handle-Tracks item_done v h = rw h (close_item-Tracks v)
  handle-Tracks completion v h = Tracks-bind _ _ (Tracks-gets _) (λ r. terminal-Tracks _ r)
  handle-Tracks incompletion v h = terminal-Tracks _ _
  handle-Tracks failure v h = Tracks-emit _ (λ ks. refl)
  handle-Tracks ignored v h = Tracks-pure tt

  -- Whatever the event and the state, unless its item is an image that the tool made (which opens
  -- and stops in one event and never enters the map), the decoder's map holds afterwards exactly
  -- the blocks that a consumer of the events sees open.
  pub event-track :
      (v : Value) (s : DecodeState Value)
      → is_image j v ≡ false
      → keys (event j v s).1.opened ≡ track (keys s.opened) (event j v s).2
  unfolding event
  event-track v s h = (handle-Tracks (kind_of (type_of j v)) v h).at s

  push_usage-state : (o : Option Value) (s : DecodeState Value) → (push_usage j o s).1 ≡ s
  unfolding push_usage emit pure
  push_usage-state none s = refl
  push_usage-state (some u) s = ground arith

  -- The events that end a response.
  abbrev pub EndsResponse : Kind → Type 0
  EndsResponse k = (k ≡ completion) ⊎ (k ≡ incompletion)

  terminal-closes :
      (v : Value) (reason : FinishReason) (s : DecodeState Value)
      → ((terminal j v reason s).1.opened ≡ []) × ((terminal j v reason s).1.terminated ≡ true)
  unfolding terminal ◌>>=◌ ◌>>◌ emit modify
  terminal-closes v reason s = (ap (λ t. t.opened) (push_usage-state _ _) ∙ (drain_lem s).0, refl)

  -- A completed or incomplete response, in any state, stops every block that is open, leaves none
  -- open and sets the terminal marker.
  pub event_ends :
      (v : Value) (s : DecodeState Value)
      → EndsResponse (kind_of (type_of j v))
      → ((event j v s).1.opened ≡ []) × ((event j v s).1.terminated ≡ true)
  unfolding event handle completed incomplete ◌>>=◌ gets
  event_ends v s (inl e) = rw e (terminal-closes _ _ s)
  event_ends v s (inr e) = rw e (terminal-closes _ _ s)
