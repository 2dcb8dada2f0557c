-- ===== src/Run/Response/Verdict.antt =====
-- src/run/events/mod.rs: the verdict of an aggregate.
use brazen.Base.{true, List, [], ◌∷◌, ◌++◌, ◌≡◌, refl, arith, inl, inr, Bool-cases}
use brazen.Canonical.Event.{Event}
use brazen.Run.Response.{has_verdict, ensure_terminal}

module _ {V : Type 0} where
  has_verdict-append :
      (xs ys : List (Event V)) → has_verdict ys ≡ true → has_verdict (xs ++ ys) ≡ true
  unfolding has_verdict
  has_verdict-append [] ys h = h
  has_verdict-append (x ∷ xs) ys h = ground (arith, has_verdict-append xs ys h)

  ensure_terminal-has_verdict : (evs : List (Event V)) → has_verdict (ensure_terminal evs) ≡ true
  unfolding ensure_terminal
  ensure_terminal-has_verdict evs = elim (Bool-cases (has_verdict evs)) [
    | inl e ↦ rw (e, e) refl
    | inr e ↦ rw e (has_verdict-append evs _ (unfold has_verdict in refl))
  ]

  ensure_terminal_done : (evs : List (Event V)) → has_verdict evs ≡ true → ensure_terminal evs ≡ evs
  unfolding ensure_terminal
  ensure_terminal_done evs e = rw e refl

  -- The guard adds something exactly to a list without a verdict: it leaves a list that has one as
  -- it is, its result always has one, and a second pass changes nothing.
  pub ensure_terminal_lem :
      (evs : List (Event V))
      → (has_verdict evs ≡ true → ensure_terminal evs ≡ evs)
        × (has_verdict (ensure_terminal evs) ≡ true)
        × (ensure_terminal (ensure_terminal evs) ≡ ensure_terminal evs)
  ensure_terminal_lem evs = (
    ensure_terminal_done evs,
    ensure_terminal-has_verdict evs,
    ensure_terminal_done _ (ensure_terminal-has_verdict evs),
  )
