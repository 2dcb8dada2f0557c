-- ===== src/Canonical/Model.antt =====
-- src/canonical/model.rs: the cached list of models, and the choice of one.
pub mod Choice
use brazen.Base.{
  ℕ, ◌+◌, Bool, true, false, ◌&&◌, List, [], ◌∷◌, ◌++◌, Option, none, some, Bytes, str, map, leb,
  bytes_eq, if◌then◌else◌,
}
use brazen.Base.Result.{Result, ok, err}
use brazen.Base.Text.{contains}
use brazen.Canonical.Error.{CanonicalError, config}

pub record Model : Type 0 where
  pub id : Bytes
  pub default : Bool
  pub context_window : Option ℕ
  pub max_output_tokens : Option ℕ
  pub display_name : Option Bytes

pub record CachedModels : Type 0 where
  pub models : List Model
  pub last_used : Option Bytes

unfoldable pub relist : CachedModels → List Model → CachedModels
relist old models = record { models = models; last_used = old.last_used }

pub data Provenance : Type 0 where
  cached verbatim : Provenance

unfoldable pub to_ascii_lowercase : Bytes → Bytes
to_ascii_lowercase = map (λ b. if leb 65 b && leb b 90 then b + 32 else b)

-- `iter().find(…)`
unfoldable pub find : (Model → Bool) → List Model → Option Model
find p [] = none
find p (m ∷ ms) = let rest = find p ms in if p m then some m else rest

abbrev pub or_model : Option Model → Option Model → Option Model
or_model none other = other
or_model (some m) other = some m

abbrev pub first : List Model → Option Model
first [] = none
first (m ∷ ms) = some m

abbrev pub has_id : Bytes → Model → Bool
has_id id m = bytes_eq m.id id

abbrev pub find_last_used : Option Bytes → List Model → Option Model
find_last_used none ms = none
find_last_used (some id) ms = find (has_id id) ms

-- The default: the last one used, the one that is flagged, or the first.
unfoldable pub default_model : CachedModels → Option Model
unfolding find
default_model c =
    or_model (find_last_used c.last_used c.models)
      (or_model (find (λ m. m.default) c.models) (first c.models))

-- The exact identifier, or the first one that contains the seed.
unfoldable pub matched : Bytes → List Model → Option Model
unfolding find to_ascii_lowercase
matched seed ms =
    or_model (find (has_id seed) ms)
      (find (λ m. contains (to_ascii_lowercase seed) (to_ascii_lowercase m.id)) ms)

module _ {V : Type 0} where
  unfoldable pub no_default : Bytes → CanonicalError V
  no_default provider = record {
    kind = config;
    message =
        str "no model given and no model cache for "
        ++ provider
        ++ str "; pass --model or run `bz --list-models`";
    provider_detail = none;
    retry_after_seconds = none;
  }

  abbrev pub chosen : Bytes → Option Model → Result (CanonicalError V) (Bytes × Provenance)
  chosen provider none = err (no_default provider)
  chosen provider (some m) = ok (m.id, cached)

  abbrev pub placed : Bytes → Option Model → Result (CanonicalError V) (Bytes × Provenance)
  placed seed none = ok (seed, verbatim)
  placed seed (some m) = ok (m.id, cached)

  unfoldable pub select_model :
      CachedModels → Bytes → Bytes → Result (CanonicalError V) (Bytes × Provenance)
  unfolding default_model matched no_default
  select_model c [] provider = chosen provider (default_model c)
  select_model c (b ∷ bs) provider = placed (b ∷ bs) (matched (b ∷ bs) c.models)
