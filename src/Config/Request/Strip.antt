-- ===== src/Config/Request/Strip.antt =====
-- src/config/resolved.rs: the keys that a backend does not take.
use brazen.Base.{List, [], ◌∷◌, Option, none, some, Bytes, ◌≡◌, refl, arith}
use brazen.Base.Assoc.{value_at, remove_key}
use brazen.Canonical.Request.{CanonicalRequest}
use brazen.Config.Request.{
  Field, max_tokens, temperature, top_p, stop, reasoning, service_tier, image, output, cache_key,
  field_of, clear_field, strip_key, cleared, strip_keys, strip_unsupported,
}
use brazen.Config.Resolve.{ResolvedConfig}

value_at-remove_key :
    {V : Type 0} (key : Bytes) (m : List (Bytes × V)) → value_at key (remove_key key m) ≡ none
unfolding value_at remove_key
value_at-remove_key key [] = refl
value_at-remove_key key ((k, v) ∷ m) = ground (arith, value_at-remove_key key m)

value_at-remove_other :
    {V : Type 0} (key other : Bytes) (m : List (Bytes × V))
    → value_at key m ≡ none
    → value_at key (remove_key other m) ≡ none
unfolding value_at remove_key
value_at-remove_other key other [] h = refl
value_at-remove_other key other ((k, v) ∷ m) h =
    ground (arith, h, value_at-remove_other key other m)

module _ {V F : Type 0} where
  -- The request says nothing under the field.
  abbrev pub Unset : Field → CanonicalRequest V F → Type 0
  Unset max_tokens req = req.max_tokens ≡ none
  Unset temperature req = req.temperature ≡ none
  Unset top_p req = req.top_p ≡ none
  Unset stop req = req.stop ≡ []
  Unset reasoning req = req.reasoning ≡ none
  Unset service_tier req = req.service_tier ≡ none
  Unset image req = req.image ≡ none
  Unset output req = req.output ≡ none
  Unset cache_key req = req.cache_key ≡ none

  abbrev pub LacksField : Option Field → Bytes → CanonicalRequest V F → Type 0
  LacksField (some field) key req = Unset field req
  LacksField none key req = value_at key req.extra ≡ none

  -- The request says nothing under the key, in a field or among the free keys.
  abbrev pub Lacks : Bytes → CanonicalRequest V F → Type 0
  Lacks key req = LacksField (field_of key) key req

  abbrev pub LacksAll : List Bytes → CanonicalRequest V F → Type 0
  LacksAll [] req = Unit
  LacksAll (key ∷ keys) req = Lacks key req × LacksAll keys req

  clear_field-Unset : (f : Field) (req : CanonicalRequest V F) → Unset f (clear_field f req)
  unfolding clear_field
  clear_field-Unset max_tokens req = refl
  clear_field-Unset temperature req = refl
  clear_field-Unset top_p req = refl
  clear_field-Unset stop req = refl
  clear_field-Unset reasoning req = refl
  clear_field-Unset service_tier req = refl
  clear_field-Unset image req = refl
  clear_field-Unset output req = refl
  clear_field-Unset cache_key req = refl

  stays-Unset :
      (f g : Field) (req : CanonicalRequest V F) → Unset f req → Unset f (clear_field g req)
  unfolding clear_field
  stays-Unset max_tokens g req h = ground arith
  stays-Unset temperature g req h = ground arith
  stays-Unset top_p g req h = ground arith
  stays-Unset stop g req h = ground arith
  stays-Unset reasoning g req h = ground arith
  stays-Unset service_tier g req h = ground arith
  stays-Unset image g req h = ground arith
  stays-Unset output g req h = ground arith
  stays-Unset cache_key g req h = ground arith

  extra-Unset :
      (f : Field) (req : CanonicalRequest V F) (extra : List (Bytes × V))
      → Unset f req
      → Unset f (record req { extra = extra })
  extra-Unset max_tokens req extra h = h
  extra-Unset temperature req extra h = h
  extra-Unset top_p req extra h = h
  extra-Unset stop req extra h = h
  extra-Unset reasoning req extra h = h
  extra-Unset service_tier req extra h = h
  extra-Unset image req extra h = h
  extra-Unset output req extra h = h
  extra-Unset cache_key req extra h = h

  extra-clear_field :
      (g : Field) (req : CanonicalRequest V F) → (clear_field g req).extra ≡ req.extra
  unfolding clear_field
  extra-clear_field g req = ground arith

  cleared-LacksField :
      (o : Option Field) (key : Bytes) (req : CanonicalRequest V F)
      → LacksField o key (cleared o key req)
  cleared-LacksField (some f) key req = clear_field-Unset f req
  cleared-LacksField none key req = value_at-remove_key key req.extra

  stays-LacksField :
      (o other : Option Field) (key k : Bytes) (req : CanonicalRequest V F)
      → LacksField o key req
      → LacksField o key (cleared other k req)
  stays-LacksField (some f) (some g) key k req h = stays-Unset f g req h
  stays-LacksField (some f) none key k req h = extra-Unset f req (remove_key k req.extra) h
  stays-LacksField none (some g) key k req h = rw (extra-clear_field g req) h
  stays-LacksField none none key k req h = value_at-remove_other key k req.extra h

  keeps-Lacks :
      (keys : List Bytes) (key : Bytes) (req : CanonicalRequest V F)
      → Lacks key req
      → Lacks key (strip_keys keys req)
  unfolding strip_keys strip_key
  keeps-Lacks [] key req h = h
  keeps-Lacks (k ∷ keys) key req h =
      keeps-Lacks keys key (strip_key k req)
        (stays-LacksField (field_of key) (field_of k) key k req h)

  strip_keys-LacksAll :
      (keys : List Bytes) (req : CanonicalRequest V F) → LacksAll keys (strip_keys keys req)
  unfolding strip_keys strip_key
  strip_keys-LacksAll [] req = tt
  strip_keys-LacksAll (key ∷ keys) req = (
    keeps-Lacks keys key (strip_key key req) (cleared-LacksField (field_of key) key req),
    strip_keys-LacksAll keys (strip_key key req),
  )

  -- The strip as a whole, in the terms of the code's own table of fields.
  pub strip_unsupported-LacksAll :
      (req : CanonicalRequest V F) (cfg : ResolvedConfig V F)
      → LacksAll cfg.provider.unsupported_body_keys (strip_unsupported req cfg)
  unfolding strip_unsupported
  strip_unsupported-LacksAll req cfg = strip_keys-LacksAll cfg.provider.unsupported_body_keys req
