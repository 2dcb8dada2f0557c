-- ===== src/Run/Drive/Fold.antt =====
-- src/pipeline/sink.rs: the exit code as a fold over the events.
use brazen.Base.{
  ℕ, Bool, true, false, List, [], ◌∷◌, ◌++◌, Option, map, ◌≡◌, ◌≢◌, ◌↔◌, refl, ap, ◌∙◌, arith,
}
use brazen.Canonical.Error.{
  CanonicalError, transport, exit_code, is_2xx, exit_from_status, from_http_status,
}
use brazen.Canonical.Event.{Event, error, end, usage}
use brazen.Run.Drive.{event_exit, stamp_usage}

module _ {V : Type 0} where
  abbrev pub has_error : List (Event V) → Bool
  has_error [] = false
  has_error (error e ∷ evs) = true
  has_error (ev ∷ evs) = has_error evs

  -- The exit code after the events, when every write succeeds.
  unfoldable pub last_exit : ℕ → List (Event V) → ℕ
  last_exit exit [] = exit
  last_exit exit (ev ∷ evs) = last_exit (event_exit ev exit) evs

  last_exit-append :
      (exit : ℕ) (xs ys : List (Event V))
      → last_exit exit (xs ++ ys) ≡ last_exit (last_exit exit xs) ys
  unfolding last_exit
  last_exit-append exit [] ys = refl
  last_exit-append exit (x ∷ xs) ys = last_exit-append (event_exit x exit) xs ys

  -- The stamp on the usage and the final `End` leave the exit code alone.
  event_exit-stamp :
      (window : Option ℕ) (fold : Bool) (ev : Event V) (exit : ℕ)
      → event_exit (stamp_usage window fold ev) exit ≡ event_exit ev exit
  unfolding event_exit stamp_usage
  event_exit-stamp window fold (usage u) exit = refl
  event_exit-stamp window fold (error e) exit = refl
  event_exit-stamp window fold _ exit = refl

  pub last_exit-stamp :
      (window : Option ℕ) (fold : Bool) (exit : ℕ) (evs : List (Event V))
      → last_exit exit (map (stamp_usage window fold) evs ++ end ∷ []) ≡ last_exit exit evs
  unfolding last_exit event_exit
  last_exit-stamp window fold exit [] = refl
  last_exit-stamp window fold exit (ev ∷ evs) =
      ap (λ x. last_exit x (map (stamp_usage window fold) evs ++ end ∷ []))
        (event_exit-stamp window fold ev exit)
      ∙ last_exit-stamp window fold (event_exit ev exit) evs

  pub last_exit-error :
      (exit : ℕ) (xs : List (Event V)) (e : CanonicalError V)
      → last_exit exit (xs ++ error e ∷ []) ≡ exit_code e.kind
  unfolding event_exit last_exit
  last_exit-error exit xs e = last_exit-append exit xs (error e ∷ [])

  exit_code-pos : (e : CanonicalError V) → exit_code e.kind ≢ 0
  exit_code-pos e = (brazen.Canonical.Error.Exit.exit_code-retryable e.kind).0

  last_exit_pos : (exit : ℕ) (evs : List (Event V)) → exit ≢ 0 → last_exit exit evs ≢ 0
  unfolding last_exit event_exit
  last_exit_pos exit [] h = h
  last_exit_pos exit (error e ∷ evs) h = last_exit_pos (exit_code e.kind) evs (exit_code-pos e)
  last_exit_pos exit (ev ∷ evs) h = last_exit_pos exit evs h

  pub last_exit-zero : (evs : List (Event V)) → (last_exit 0 evs ≡ 0) ↔ (has_error evs ≡ false)
  unfolding last_exit event_exit
  last_exit-zero [] = ground arith
  last_exit-zero (error e ∷ evs) =
      let nonzero = last_exit_pos (exit_code e.kind) evs (exit_code-pos e) in ground arith
  last_exit-zero (ev ∷ evs) = last_exit-zero evs
