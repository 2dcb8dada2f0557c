-- ===== src/Protocol/Models.antt =====
-- src/protocol/json.rs: the projection of a model list and of a token count.
pub mod Default
use brazen.Base.{
  ℕ, ◌%◌, ◌^◌, Bool, true, false, List, [], ◌∷◌, ◌++◌, Option, none, some, Bytes, str, map, length,
  drop, ltb, starts_with, bytes_eq, if◌then◌else◌,
}
use brazen.Base.Result.{Result, ok, err}
use brazen.Canonical.Json.{Json}
use brazen.Canonical.Error.{CanonicalError, provider}
use brazen.Canonical.Model.{Model}

-- The shape of the list (src/protocol/mod.rs).
pub data Collection : Type 0 where
  array_of : Bytes → Bytes → Collection
  map_of : Bytes → Collection

pub record ModelKeys : Type 0 where
  pub collection : Collection
  pub strip : Bytes
  pub context_key : Bytes
  pub max_output_key : Bytes
  pub display_name_key : Bytes
  pub default_key : Bytes

-- `id.strip_prefix(strip).unwrap_or(id)`
unfoldable pub strip_id : Bytes → Bytes → Bytes
strip_id strip id = if starts_with strip id then drop (length strip) id else id

-- `default == Some(id)`
abbrev pub is_default : Option Bytes → Bytes → Bool
is_default none id = false
is_default (some d) id = bytes_eq id d

abbrev pub fits_u32 : Option ℕ → Option ℕ
fits_u32 none = none
fits_u32 (some n) = if ltb n (2 ^ 32) then some n else none

module _ {V : Type 0} where
  unfoldable pub models_error : Bytes → CanonicalError V
  models_error detail = record {
    kind = provider 502;
    message = str "malformed models list: " ++ detail;
    provider_detail = none;
    retry_after_seconds = none;
  }

  unfoldable pub count_error : Bytes → CanonicalError V
  count_error detail = record {
    kind = provider 502;
    message = str "malformed token count: " ++ detail;
    provider_detail = none;
    retry_after_seconds = none;
  }

module _ (j : Json) where
  open j use {Value, at_key, as_str, as_u64, as_array, as_object, from_slice}

  unfoldable pub opt_u32 : Value → Bytes → Option ℕ
  opt_u32 v key = fits_u32 (as_u64 (at_key v key))

  unfoldable pub opt_str : Value → Bytes → Option Bytes
  opt_str v key = as_str (at_key v key)

  -- The entries of an array that have an identifier.
  unfoldable pub with_ids : Bytes → List Value → List (Bytes × Value)
  with_ids id_key [] = []
  with_ids id_key (e ∷ es) =
      let rest = with_ids id_key es in
      elim (as_str (at_key e id_key)) [ none ↦ rest | some id ↦ (id, e) ∷ rest ]

  abbrev array_entries : Bytes → Option (List Value) → Option (List (Bytes × Value))
  array_entries id_key none = none
  array_entries id_key (some es) = some (with_ids id_key es)

  unfoldable pub entries : Collection → Value → Option (List (Bytes × Value))
  unfolding with_ids
  entries (array_of key id_key) v = array_entries id_key (as_array (at_key v key))
  entries (map_of key) v = as_object (at_key v key)

  unfoldable pub shape_error : Collection → CanonicalError Value
  unfolding models_error
  shape_error (array_of key id_key) =
      models_error (str "models body has no `" ++ key ++ str "` array")
  shape_error (map_of key) = models_error (str "models body has no `" ++ key ++ str "` map")

  unfoldable pub model_of : ModelKeys → Option Bytes → Bytes × Value → Model
  unfolding strip_id opt_u32 opt_str
  model_of keys default (id, e) = record {
    id = strip_id keys.strip id;
    default = is_default default (strip_id keys.strip id);
    context_window = opt_u32 e keys.context_key;
    max_output_tokens = opt_u32 e keys.max_output_key;
    display_name = opt_str e keys.display_name_key;
  }

  abbrev pub models_of :
      ModelKeys → Value → Option (List (Bytes × Value)) → Result (CanonicalError Value) (List Model)
  models_of keys v none = err (shape_error keys.collection)
  models_of keys v (some es) = ok (map (model_of keys (as_str (at_key v keys.default_key))) es)

  abbrev pub decode_parsed :
      ModelKeys → Result Bytes Value → Result (CanonicalError Value) (List Model)
  decode_parsed keys (err text) = err (models_error text)
  decode_parsed keys (ok v) = models_of keys v (entries keys.collection v)

  unfoldable pub decode_models : Bytes → ModelKeys → Result (CanonicalError Value) (List Model)
  unfolding entries model_of shape_error models_error
  decode_models bytes keys = decode_parsed keys (from_slice bytes)

  abbrev pub count_of : Bytes → Option ℕ → Result (CanonicalError Value) ℕ
  count_of key none = err (count_error (str "count body has no `" ++ key ++ str "` number"))
  count_of key (some n) = ok (n % 2 ^ 32)

  abbrev pub count_parsed : Bytes → Result Bytes Value → Result (CanonicalError Value) ℕ
  count_parsed key (err text) = err (count_error text)
  count_parsed key (ok v) = count_of key (as_u64 (at_key v key))

  unfoldable pub count_from_body : Bytes → Bytes → Result (CanonicalError Value) ℕ
  unfolding count_error
  count_from_body bytes key = count_parsed key (from_slice bytes)
