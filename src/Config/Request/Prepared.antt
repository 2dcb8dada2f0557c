-- ===== src/Config/Request/Prepared.antt =====
-- src/config/resolved.rs: the request that `generate` of src/run/generate.rs encodes.
use mathlib.Core.Path.{subst}
use brazen.Base.{
  Option-cases, ◌⊎◌, ℕ, ◌≤◌, Bool, true, false, List, [], ◌∷◌, Option, none, some, Bytes, str, leb,
  or_else, ◌≡◌, refl, ap, sym, ◌∙◌, arith, Bool-cases, inl, inr,
}
use brazen.Canonical.Knobs.{ReasoningEffort, floor}
use brazen.Canonical.Request.{CanonicalRequest}
use brazen.Config.Request.{
  Field, max_tokens, temperature, top_p, stop, reasoning, service_tier, image, output, cache_key,
  field_of, raise, with_budget, fill_absent, strip_unsupported, couple_budget, lead_with_preamble,
}
use brazen.Config.Request.Strip.{Unset, LacksField, LacksAll, strip_unsupported-LacksAll}
use brazen.Config.Request.Silent.{
  SilentAll, LacksAll-SilentAll, listed, strip_unsupported-max_tokens, strip_unsupported-reasoning,
}
use brazen.Config.Resolve.{ResolvedConfig}

-- The cap that is raised: the stated one, or else the served one.
pub data IsBase : Option ℕ → Option ℕ → ℕ → Type 0 where
  own : {n : ℕ} {served : Option ℕ} → IsBase (some n) served n
  served : {n : ℕ} → IsBase none (some n) n

IsBase-cases : (o p : Option ℕ) → ((o ≡ none) × (p ≡ none)) ⊎ ((base : ℕ) × IsBase o p base)
IsBase-cases (some n) p = inr (n, own)
IsBase-cases none (some n) = inr (n, served)
IsBase-cases none none = inl (refl, refl)

no_base : {o p : Option ℕ} → o ≡ none → p ≡ none → or_else o p ≡ none
no_base {o} {p} e f = ap (λ x. or_else x p) e ∙ f

some_base : {o p : Option ℕ} {base : ℕ} → IsBase o p base → or_else o p ≡ some base
some_base own = refl
some_base served = refl

lifted : (n f : ℕ) → (m : ℕ) × (raise (some n) f ≡ some m) × (f ≤ m) × (n ≤ m) × ((m ≡ n) ⊎ (m ≡ f))
lifted n f = elim (Bool-cases (leb f n)) [
  | inl e ↦ (n, ground (arith, e), ground (arith, e), ground arith, inl refl)
  | inr e ↦ (f, ground (arith, e), ground arith, ground (arith, e), inr refl)
]

module _ {V F : Type 0} where
  -- The part of `generate` that makes the request ready.
  unfoldable pub prepare :
      CanonicalRequest V F → ResolvedConfig V F → Bool → Option ℕ → CanonicalRequest V F
  unfolding fill_absent lead_with_preamble strip_unsupported couple_budget
  prepare req cfg budget served_max =
      couple_budget (strip_unsupported (lead_with_preamble (fill_absent req cfg) cfg) cfg) budget
        served_max

  cap_of :
      (o : Option ReasoningEffort) (effort : ReasoningEffort) (served_max : Option ℕ)
      (req : CanonicalRequest V F)
      → o ≡ some effort
      → (with_budget o served_max req).max_tokens
        ≡ raise (or_else req.max_tokens served_max) (floor effort)
  cap_of none effort served_max req e = absurd cc
  cap_of (some effort') effort served_max req e =
      let same : effort' ≡ effort = cc in
      ap (λ x. raise (or_else req.max_tokens served_max) (floor x)) same

  -- What becomes of a request, in three cases that exclude each other: on another dialect, or
  -- without an effort, it stays as it is, and so it does where no cap is stated and none is served;
  -- else its cap, the stated one or else the served one, is raised to the floor of the effort, and
  -- nothing else changes.
  pub data Coupled (req : CanonicalRequest V F) (budget : Bool) (served_max : Option ℕ)
      : CanonicalRequest V F → Type 0 where
    untouched : (budget ≡ false) ⊎ (req.reasoning ≡ none) → Coupled req budget served_max req
    capless :
        (effort : ReasoningEffort)
        → budget ≡ true
        → req.reasoning ≡ some effort
        → req.max_tokens ≡ none
        → served_max ≡ none
        → Coupled req budget served_max req
    raises :
        (effort : ReasoningEffort) (base n : ℕ)
        → budget ≡ true
        → req.reasoning ≡ some effort
        → IsBase req.max_tokens served_max base
        → floor effort ≤ n
        → base ≤ n
        → (n ≡ base) ⊎ (n ≡ floor effort)
        → Coupled req budget served_max (record req { max_tokens = some n })

  raises-Coupled :
      (effort : ReasoningEffort) (req : CanonicalRequest V F) (served_max : Option ℕ)
      → req.reasoning ≡ some effort
      → Coupled req true served_max (with_budget (some effort) served_max req)
  raises-Coupled effort req served_max e = elim (IsBase-cases req.max_tokens served_max) [
    | inl (unstated, unserved) ↦
        subst (Coupled req true served_max)
          (ap (λ o. record req { max_tokens = o }) unstated
            ∙ ap (λ o. record req { max_tokens = raise o (floor effort) })
                (sym (no_base unstated unserved)))
          (capless effort refl e unstated unserved)
    | inr (base, is_base) ↦
        let (n, cap, above, over, tight) = lifted base (floor effort) in
        subst (Coupled req true served_max)
          (ap (λ o. record req { max_tokens = o })
            (sym (ap (λ o. raise o (floor effort)) (some_base is_base) ∙ cap)))
          (raises effort base n refl e is_base above over tight)
  ]

  -- On a dialect that spells an effort as a budget, the cap of a request with an effort, the stated
  -- one or else the one that the model serves, is raised to the floor of the effort and never
  -- lowered; nothing else of the request changes. Without an effort, on another dialect, or where
  -- no cap is stated or served, the whole request stays as it is.
  pub couple_budget-Coupled :
      (req : CanonicalRequest V F) (budget : Bool) (served_max : Option ℕ)
      → Coupled req budget served_max (couple_budget req budget served_max)
  unfolding couple_budget
  couple_budget-Coupled req false served_max = untouched (inl refl)
  couple_budget-Coupled req true served_max = elim (Option-cases req.reasoning) [
    | inl e ↦
        subst (λ o. Coupled req true served_max (with_budget o served_max req)) (sym e)
          (untouched (inr e))
    | inr (effort, e) ↦
        subst (λ o. Coupled req true served_max (with_budget o served_max req)) (sym e)
          (raises-Coupled effort req served_max e)
  ]

  ready_reasoning :
      (req : CanonicalRequest V F) (cfg : ResolvedConfig V F)
      → (lead_with_preamble (fill_absent req cfg) cfg).reasoning
        ≡ or_else req.reasoning cfg.reasoning
  unfolding lead_with_preamble fill_absent
  ready_reasoning req cfg = ground arith

  -- Where a provider's row lists `max_tokens` as a key that it does not take, and not `reasoning`, a
  -- request with an effort, its own or the configured one, still gets a cap on a budget dialect once
  -- the model serves one: the served cap or the floor of the effort, whichever is larger, whatever
  -- the caller or the configuration stated.
  pub prepare-refilled :
      (req : CanonicalRequest V F) (cfg : ResolvedConfig V F) (effort : ReasoningEffort) (n : ℕ)
      → listed (str "max_tokens") cfg.provider.unsupported_body_keys ≡ true
      → listed (str "reasoning") cfg.provider.unsupported_body_keys ≡ false
      → or_else req.reasoning cfg.reasoning ≡ some effort
      → (m : ℕ) × ((prepare req cfg true (some n)).max_tokens ≡ some m)
        × (floor effort ≤ m)
        × (n ≤ m)
        × ((m ≡ n) ⊎ (m ≡ floor effort))
  unfolding prepare couple_budget
  prepare-refilled req cfg effort n declined taken e =
      let ready = lead_with_preamble (fill_absent req cfg) cfg in
      let stripped = strip_unsupported ready cfg in
      let stated_none : stripped.max_tokens ≡ none =
        strip_unsupported-max_tokens ready cfg declined in
      let thinks : stripped.reasoning ≡ some effort =
        strip_unsupported-reasoning ready cfg taken ∙ ready_reasoning req cfg ∙ e in
      let (m, cap, above, over, tight) = lifted n (floor effort) in
      (
        m,
        cap_of stripped.reasoning effort (some n) stripped thinks
            ∙ ap (λ o. raise (or_else o (some n)) (floor effort)) stated_none
            ∙ cap,
        above,
        over,
        tight,
      )

  kept-Unset :
      (f : Field) (effort : Option ReasoningEffort) (req : CanonicalRequest V F)
      → Unset f req
      → Unset f (with_budget effort none req)
  kept-Unset f none req h = h
  kept-Unset max_tokens (some effort) req h = rw h refl
  kept-Unset temperature (some effort) req h = h
  kept-Unset top_p (some effort) req h = h
  kept-Unset stop (some effort) req h = h
  kept-Unset reasoning (some effort) req h = h
  kept-Unset service_tier (some effort) req h = h
  kept-Unset image (some effort) req h = h
  kept-Unset output (some effort) req h = h
  kept-Unset cache_key (some effort) req h = h

  kept-LacksField :
      (o : Option Field) (key : Bytes) (effort : Option ReasoningEffort)
      (req : CanonicalRequest V F)
      → LacksField o key req
      → LacksField o key (with_budget effort none req)
  kept-LacksField (some f) key effort req h = kept-Unset f effort req h
  kept-LacksField none key none req h = h
  kept-LacksField none key (some effort) req h = h

  kept-LacksAll :
      (keys : List Bytes) (effort : Option ReasoningEffort) (req : CanonicalRequest V F)
      → LacksAll keys req
      → LacksAll keys (with_budget effort none req)
  kept-LacksAll [] effort req h = tt
  kept-LacksAll (key ∷ keys) effort req (h, hs) =
      (kept-LacksField (field_of key) key effort req h, kept-LacksAll keys effort req hs)

  -- Where the model serves no output cap, the request that is encoded is silent under every key that
  -- the provider's row lists, whatever the caller, the configuration and the preamble put in: the
  -- field is empty where the key is the name of one of the nine fields that a row can decline, and
  -- for any other key there is no free key of that name.
  pub prepare-SilentAll :
      (req : CanonicalRequest V F) (cfg : ResolvedConfig V F) (budget : Bool)
      → SilentAll cfg.provider.unsupported_body_keys (prepare req cfg budget none)
  unfolding prepare couple_budget
  prepare-SilentAll req cfg budget =
      let ready = lead_with_preamble (fill_absent req cfg) cfg in
      LacksAll-SilentAll cfg.provider.unsupported_body_keys (prepare req cfg budget none) (
        kept-LacksAll cfg.provider.unsupported_body_keys _ (strip_unsupported ready cfg)
          (strip_unsupported-LacksAll ready cfg))
