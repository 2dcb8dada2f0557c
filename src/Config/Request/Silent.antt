-- ===== src/Config/Request/Silent.antt =====
-- src/config/resolved.rs: the strip, in terms of the names of the keys.
use mathlib.Core.Path.{subst}
use brazen.Base.{
  Bool, true, false, ◌||◌, str, bytes_eq, bytes_eq_iff, bytes_eq_comm, sym, ◌∙◌, Bool-cases, inl,
  inr, List, [], ◌∷◌, none, Bytes, ◌≡◌, refl, arith,
}
use brazen.Base.Assoc.{value_at}
use brazen.Canonical.Request.{CanonicalRequest}
use brazen.Config.Request.{field_of, clear_field, strip_key, strip_keys, strip_unsupported}
use brazen.Config.Resolve.{ResolvedConfig}
use brazen.Config.Request.Strip.{LacksField, Lacks, LacksAll, strip_unsupported-LacksAll}

-- A key is in a list.
unfoldable pub listed : Bytes → List Bytes → Bool
listed key [] = false
listed key (k ∷ keys) = bytes_eq key k || listed key keys

-- The body keys that have a field in the request, by the names that a provider's row may list.
abbrev pub body_names : List Bytes
body_names =
    str "max_tokens"
    ∷ str "temperature"
    ∷ str "top_p"
    ∷ str "stop"
    ∷ str "reasoning"
    ∷ str "service_tier"
    ∷ str "image"
    ∷ str "output"
    ∷ str "cache_key"
    ∷ []

-- What a request without a key is: the field of that name is empty; for any other name the key is
-- not among the free ones.
pub record Silent {V F : Type 0} (key : Bytes) (req : CanonicalRequest V F) : Type 0 where
  no_max_tokens : key ≡ str "max_tokens" → req.max_tokens ≡ none
  no_temperature : key ≡ str "temperature" → req.temperature ≡ none
  no_top_p : key ≡ str "top_p" → req.top_p ≡ none
  no_stop : key ≡ str "stop" → req.stop ≡ []
  no_reasoning : key ≡ str "reasoning" → req.reasoning ≡ none
  no_service_tier : key ≡ str "service_tier" → req.service_tier ≡ none
  no_image : key ≡ str "image" → req.image ≡ none
  no_output : key ≡ str "output" → req.output ≡ none
  no_cache_key : key ≡ str "cache_key" → req.cache_key ≡ none
  no_free : listed key body_names ≡ false → value_at key req.extra ≡ none

abbrev pub SilentAll : {V F : Type 0} → List Bytes → CanonicalRequest V F → Type 0
SilentAll [] req = Unit
SilentAll (key ∷ keys) req = Silent key req × SilentAll keys req

unnamed : (key : Bytes) → listed key body_names ≡ false → field_of key ≡ none
unfolding field_of listed
unnamed key e = ground (arith, e)

module _ {V F : Type 0} where
  Lacks-at :
      (name key : Bytes) (req : CanonicalRequest V F) → key ≡ name → Lacks key req → Lacks name req
  Lacks-at name key req e h = subst (λ k. Lacks k req) e h

  Lacks-free :
      (key : Bytes) (req : CanonicalRequest V F)
      → listed key body_names ≡ false
      → Lacks key req
      → value_at key req.extra ≡ none
  Lacks-free key req e h = subst (λ o. LacksField o key req) (unnamed key e) h

  pub Lacks-Silent : (key : Bytes) (req : CanonicalRequest V F) → Lacks key req → Silent key req
  unfolding field_of bytes_eq str
  Lacks-Silent key req h = record {
    no_max_tokens = λ e. Lacks-at (str "max_tokens") key req e h;
    no_temperature = λ e. Lacks-at (str "temperature") key req e h;
    no_top_p = λ e. Lacks-at (str "top_p") key req e h;
    no_stop = λ e. Lacks-at (str "stop") key req e h;
    no_reasoning = λ e. Lacks-at (str "reasoning") key req e h;
    no_service_tier = λ e. Lacks-at (str "service_tier") key req e h;
    no_image = λ e. Lacks-at (str "image") key req e h;
    no_output = λ e. Lacks-at (str "output") key req e h;
    no_cache_key = λ e. Lacks-at (str "cache_key") key req e h;
    no_free = λ e. Lacks-free key req e h;
  }

  pub LacksAll-SilentAll :
      (keys : List Bytes) (req : CanonicalRequest V F) → LacksAll keys req → SilentAll keys req
  LacksAll-SilentAll [] req h = tt
  LacksAll-SilentAll (key ∷ keys) req (h, hs) =
      (Lacks-Silent key req h, LacksAll-SilentAll keys req hs)

  -- The strip and one field: a listed key empties it, a key that is not listed leaves it.
  Unset-max_tokens :
      (keys : List Bytes) (req : CanonicalRequest V F)
      → LacksAll keys req
      → listed (str "max_tokens") keys ≡ true
      → req.max_tokens ≡ none
  unfolding listed field_of bytes_eq str
  Unset-max_tokens [] req h l = absurd cc
  Unset-max_tokens (key ∷ keys) req (h, hs) l =
      elim (Bool-cases (bytes_eq (str "max_tokens") key)) [
        | inl e ↦
            Lacks-at (str "max_tokens") key req (sym ((bytes_eq_iff (str "max_tokens") key).0 e)) h
        | inr e ↦ Unset-max_tokens keys req hs (ground (arith, e, l))
      ]

  pub strip_unsupported-max_tokens :
      (req : CanonicalRequest V F) (cfg : ResolvedConfig V F)
      → listed (str "max_tokens") cfg.provider.unsupported_body_keys ≡ true
      → (strip_unsupported req cfg).max_tokens ≡ none
  strip_unsupported-max_tokens req cfg l =
      Unset-max_tokens cfg.provider.unsupported_body_keys (strip_unsupported req cfg)
        (strip_unsupported-LacksAll req cfg) l

  strip_key-reasoning :
      (key : Bytes) (req : CanonicalRequest V F)
      → bytes_eq (str "reasoning") key ≡ false
      → (strip_key key req).reasoning ≡ req.reasoning
  unfolding strip_key field_of clear_field
  strip_key-reasoning key req e = ground (arith, e, bytes_eq_comm (str "reasoning") key)

  strip_keys-reasoning :
      (keys : List Bytes) (req : CanonicalRequest V F)
      → listed (str "reasoning") keys ≡ false
      → (strip_keys keys req).reasoning ≡ req.reasoning
  unfolding strip_keys listed
  strip_keys-reasoning [] req l = refl
  strip_keys-reasoning (key ∷ keys) req l =
      strip_keys-reasoning keys (strip_key key req) (ground (arith, l))
      ∙ strip_key-reasoning key req (ground (arith, l))

  pub strip_unsupported-reasoning :
      (req : CanonicalRequest V F) (cfg : ResolvedConfig V F)
      → listed (str "reasoning") cfg.provider.unsupported_body_keys ≡ false
      → (strip_unsupported req cfg).reasoning ≡ req.reasoning
  unfolding strip_unsupported
  strip_unsupported-reasoning req cfg l =
      strip_keys-reasoning cfg.provider.unsupported_body_keys req l
