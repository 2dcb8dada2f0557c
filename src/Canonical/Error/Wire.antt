-- ===== src/Canonical/Error/Wire.antt =====
-- src/canonical/error.rs: the serde form of `ErrorKind`, a tag or an object with the one key
-- `provider`.
use brazen.Base.{
  ℕ, ◌<◌, ◌%◌, ◌^◌, false, List, [], ◌∷◌, Option, none, some, ◌≡◌, refl, arith, Bytes, str,
  bytes_eq, if◌then◌else◌,
}
use brazen.Canonical.Json.{Json, JsonLaws, at_key-single}
use brazen.Canonical.Error.{
  ErrorKind, usage, parse_input, config, auth, provider, transport, interrupted, other,
}

module _ (j : Json) where
  open j use {Value, string, number, object, at_key, as_str, as_u64, as_object}

  unfoldable pub serialize : ErrorKind → Value
  serialize usage = string (str "usage")
  serialize parse_input = string (str "parse_input")
  serialize config = string (str "config")
  serialize auth = string (str "auth")
  serialize transport = string (str "transport")
  serialize interrupted = string (str "interrupted")
  serialize (provider status) =
      object ((str "provider", object ((str "status", number status) ∷ [])) ∷ [])
  serialize (other tag) = string tag

  -- `m.keys().next()`, or the empty tag.
  abbrev first_key : Option (List (Bytes × Value)) → Bytes
  first_key none = []
  first_key (some []) = []
  first_key (some ((k, v) ∷ rest)) = k

  unfoldable pub tag_of : Value → Bytes
  tag_of v = elim (as_str v) [ some s ↦ s | none ↦ first_key (as_object v) ]

  -- `as_u64().unwrap_or_default() as u16`
  abbrev status_of : Option ℕ → ℕ
  status_of none = 0
  status_of (some n) = n % 2 ^ 16

  -- The `match tag`.
  unfoldable pub kind_of : Bytes → Value → ErrorKind
  kind_of tag v =
      if bytes_eq tag (str "usage")
      then usage
      else if bytes_eq tag (str "parse_input")
      then parse_input
      else if bytes_eq tag (str "config")
      then config
      else if bytes_eq tag (str "auth")
      then auth
      else if bytes_eq tag (str "transport")
      then transport
      else if bytes_eq tag (str "interrupted")
      then interrupted
      else if bytes_eq tag (str "provider")
      then provider (status_of (as_u64 (at_key (at_key v (str "provider")) (str "status"))))
      else other tag

  unfoldable pub deserialize : Value → ErrorKind
  deserialize v = kind_of (tag_of v) v

  -- The kinds that the wire can carry: a status of 16 bits, and no tag that names another kind.
  abbrev pub IsWire : ErrorKind → Type 0
  IsWire (provider status) = status < 2 ^ 16
  IsWire (other tag) =
      (bytes_eq tag (str "usage") ≡ false)
      × (bytes_eq tag (str "parse_input") ≡ false)
      × (bytes_eq tag (str "config") ≡ false)
      × (bytes_eq tag (str "auth") ≡ false)
      × (bytes_eq tag (str "transport") ≡ false)
      × (bytes_eq tag (str "interrupted") ≡ false)
      × (bytes_eq tag (str "provider") ≡ false)
  IsWire _ = Unit

  module _ (laws : JsonLaws j) where
    tag_of-string : (s : Bytes) → tag_of (string s) ≡ s
    unfolding tag_of
    tag_of-string s = rw (laws.as_str-string s, tag_of)

    tag_of-single : (k : Bytes) (v : Value) → tag_of (object ((k, v) ∷ [])) ≡ k
    unfolding tag_of
    tag_of-single k v =
        rw (laws.as_str-object ((k, v) ∷ []), tag_of) (rw (laws.as_object-single k v))

    -- A kind is read back from its wire form, where its status fits in 16 bits and the tag of an
    -- `Other` is none of the tags of the other kinds.
    pub deserialize-serialize :
        (kind : ErrorKind) → IsWire kind → deserialize (serialize kind) ≡ kind
    unfolding deserialize serialize kind_of bytes_eq str
    deserialize-serialize usage h = rw tag_of-string refl
    deserialize-serialize (provider s) h = rw tag_of-single (
        rw (at_key-single laws, at_key-single laws, laws.as_u64-number s (omega arith))
          (ground arith))
    deserialize-serialize (other tag) h = rw tag_of-string (ground arith)
    deserialize-serialize _ h = rw tag_of-string refl
