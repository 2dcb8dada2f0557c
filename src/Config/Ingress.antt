-- ===== src/Config/Ingress.antt =====
-- src/config/resolve/ingress.rs: the listener's configuration. The parse of a socket address, its
-- spelling and `is_loopback` belong to the standard library's network types and are parameters.
use mathlib.Core.Path.{subst}
use brazen.Base.{
  Bool, true, false, not, ◌&&◌, ◌||◌, List, [], ◌∷◌, ◌++◌, Option, none, some, Bytes, str, bytes_eq,
  is_some, get_or, ◌≡◌, ◌⊎◌, inl, inr, refl, arith,
}
use brazen.Base.Assoc.{value_at}
use brazen.Base.Result.{Result, ok, err, ◌>>=◌, on_ok, ok_injective}
use brazen.Config.Errors.{ConfigError, ingress}
use brazen.Config.Partial.{PartialIngress, PartialConfig, LossyMode, adapt}
use brazen.Config.Row.{ok_or, refuse_if}
use brazen.Config.Row.Complete.{on_pass}

-- `core::net::SocketAddr`: its parse, its display, and whether its address is a loopback one.
pub record Sockets : Type 1 where
  pub SocketAddr : Type 0
  pub parse : Bytes → Option SocketAddr
  pub display : SocketAddr → Bytes
  pub is_loopback : SocketAddr → Bool

abbrev pub default_listen : Bytes
default_listen = str "127.0.0.1:4891"

abbrev pub known_adaptations : List Bytes
known_adaptations = str "thinking_replay" ∷ str "document_url_drop" ∷ []

-- `KNOWN_ADAPTATIONS.contains`
unfoldable pub is_known : Bytes → List Bytes → Bool
is_known name [] = false
is_known name (k ∷ ks) = bytes_eq k name || is_known name ks

unfoldable pub validate_lossy_overrides : List (Bytes × LossyMode) → Result ConfigError Bool
unfolding is_known
validate_lossy_overrides [] = ok true
validate_lossy_overrides ((name, mode) ∷ rest) =
    refuse_if (not (is_known name known_adaptations))
      (ingress (
        str "unknown adaptation `"
        ++ name
        ++ str "` in `lossy_overrides` (known: thinking_replay, document_url_drop)"))
      (validate_lossy_overrides rest)

module _ (sockets : Sockets) where
  open sockets use {SocketAddr, parse, display, is_loopback}

  pub record IngressConfig : Type 0 where
    pub listen : SocketAddr
    pub token : Option Bytes
    pub lossy : LossyMode
    pub lossy_overrides : List (Bytes × LossyMode)

  unfoldable pub lossy_for : IngressConfig → Bytes → LossyMode
  unfolding value_at
  lossy_for c adaptation = get_or (value_at adaptation c.lossy_overrides) c.lossy

  -- `PartialIngress::into_resolved`
  unfoldable pub into_ingress : PartialIngress → Result ConfigError IngressConfig
  unfolding validate_lossy_overrides
  into_ingress self =
      let spelled = get_or self.listen default_listen in
      validate_lossy_overrides self.lossy_overrides >>= λ _.
      ok_or (parse spelled)
        (ingress (str "`listen` must be an `ip:port` socket address, got `" ++ spelled ++ str "`"))
      >>= λ listen.
          refuse_if (not (is_loopback listen) && not (is_some self.token))
            (ingress (
              str "refusing a non-loopback `listen` ("
              ++ display listen
              ++ str ") without `token` "
              ++ 0xE2 ∷ 0x80 ∷ 0x94 ∷ []
              ++ str " set one, or bind loopback"))
            (ok (record {
              listen = listen;
              token = self.token;
              lossy = get_or self.lossy adapt;
              lossy_overrides = self.lossy_overrides;
            }))

  abbrev of_table : Option PartialIngress → Result ConfigError IngressConfig
  of_table none = err (ingress (str "`--serve` needs an `[ingress]` table; the config has none"))
  of_table (some table) = into_ingress table

  unfoldable pub resolve_ingress :
      {V F : Type 0} → PartialConfig V F → Result ConfigError IngressConfig
  unfolding into_ingress
  resolve_ingress self = of_table self.ingress

  -- Every override names an adaptation that exists.
  abbrev pub AllKnown : List (Bytes × LossyMode) → Type 0
  AllKnown [] = Unit
  AllKnown ((name, mode) ∷ rest) = (is_known name known_adaptations ≡ true) × AllKnown rest

  -- A listener that is safe to open: on a loopback address or behind a token.
  abbrev pub IsSafe : IngressConfig → Type 0
  IsSafe c = ((is_loopback c.listen ≡ true) ⊎ (is_some c.token ≡ true)) × AllKnown c.lossy_overrides

  validate-AllKnown :
      (overrides : List (Bytes × LossyMode)) (b : Bool)
      → validate_lossy_overrides overrides ≡ ok b
      → AllKnown overrides
  unfolding validate_lossy_overrides
  validate-AllKnown [] b h = tt
  validate-AllKnown ((name, mode) ∷ rest) b h =
      on_pass (not (is_known name known_adaptations)) _ (validate_lossy_overrides rest) h
        λ known more. (ground (arith, known), validate-AllKnown rest b more)

  guarded :
      (loopback token : Bool)
      → not loopback && not token ≡ false
      → (loopback ≡ true) ⊎ (token ≡ true)
  guarded true token h = inl refl
  guarded false true h = inr refl
  guarded false false h = cc

  into_ingress-IsSafe :
      (self : PartialIngress) (c : IngressConfig) → into_ingress self ≡ ok c → IsSafe c
  unfolding into_ingress
  into_ingress-IsSafe self c h =
      on_ok (validate_lossy_overrides self.lossy_overrides) _ h λ b valid h1.
        on_ok (ok_or (parse (get_or self.listen default_listen)) _) _ h1 λ listen parsed h2.
          on_pass (not (is_loopback listen) && not (is_some self.token)) _ _ h2 λ safe h3.
            subst IsSafe (ok_injective h3)
              (guarded (is_loopback listen) _ safe, validate-AllKnown self.lossy_overrides b valid)

  tabled : (table : Option PartialIngress) (c : IngressConfig) → of_table table ≡ ok c → IsSafe c
  tabled none c h = absurd cc
  tabled (some table) c h = into_ingress-IsSafe table c h

  -- A listener that resolves is on a loopback address or behind a token, and each of its overrides
  -- names an adaptation that exists, so that no misspelt override leaves the default in force.
  pub resolve_ingress-IsSafe :
      {V F : Type 0} (self : PartialConfig V F) (c : IngressConfig)
      → resolve_ingress self ≡ ok c
      → IsSafe c
  unfolding resolve_ingress
  resolve_ingress-IsSafe self c h = tabled self.ingress c h
