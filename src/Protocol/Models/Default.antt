-- ===== src/Protocol/Models/Default.antt =====
-- src/protocol/json.rs, src/canonical/model.rs: a served list and the choice from it.
use mathlib.Core.Path.{subst}
use brazen.Base.{true, List, [], ◌∷◌, Option, none, some, Bytes, map, ◌≡◌, refl, sym, ap, ◌∙◌}
use brazen.Base.Result.{Result, ok, err}
use brazen.Canonical.Json.{Json}
use brazen.Canonical.Error.{CanonicalError, provider, exit_code, retryable}
use brazen.Canonical.Model.{Model, Provenance, find, has_id, select_model, default_model}
use brazen.Canonical.Model.Choice.{listed, find-has_id}
use brazen.Protocol.Models.{
  ModelKeys, Collection, model_of, models_of, decode_parsed, decode_models, shape_error,
  models_error,
}

module _ (j : Json) where
  open j use {Value, at_key, as_str, from_slice}

  -- Among served models the flag is the equality with the served default.
  find-model_of :
      (keys : ModelKeys) (d : Bytes) (es : List (Bytes × Value))
      → find (λ m. m.default) (map (model_of j keys (some d)) es)
        ≡ find (has_id d) (map (model_of j keys (some d)) es)
  unfolding find model_of
  find-model_of keys d [] = refl
  find-model_of keys d ((id, e) ∷ es) = rw (find-model_of keys d es) refl

  chosen_default :
      (keys : ModelKeys) (d p : Bytes) (es : List (Bytes × Value))
      → listed d (map (model_of j keys (some d)) es) ≡ true
      → select_model {V = Value}
          (record { models = map (model_of j keys (some d)) es; last_used = none })
          []
          p
        ≡ ok (d, Provenance.cached)
  unfolding select_model default_model
  chosen_default keys d p es h =
      let (m, found, same) = find-has_id d (map (model_of j keys (some d)) es) h in
      rw (find-model_of keys d es, found, same) refl

  models_of-default :
      (keys : ModelKeys) (v : Value) (d p : Bytes) (o : Option (List (Bytes × Value)))
      (ms : List Model)
      → as_str (at_key v keys.default_key) ≡ some d
      → models_of j keys v o ≡ ok ms
      → listed d ms ≡ true
      → select_model {V = Value} (record { models = ms; last_used = none }) [] p
        ≡ ok (d, Provenance.cached)
  models_of-default keys v d p none ms served h l = cc
  models_of-default keys v d p (some es) ms served h l =
      let same : map (model_of j keys (some d)) es ≡ ms =
        let decoded : ok (map (model_of j keys (some d)) es) ≡ ok ms = rw served at h in cc in
      subst
        (λ ms'.
          select_model {V = Value} (record { models = ms'; last_used = none }) [] p
          ≡ ok (d, Provenance.cached))
        same (chosen_default keys d p es (subst (λ ms'. listed d ms' ≡ true) (sym same) l))

  -- When a body parses, its default names `d` and a model `d` is among the decoded ones, an empty
  -- seed chooses `d` from the fresh list, whatever its place in the list.
  pub decode_models-default :
      (bytes : Bytes) (keys : ModelKeys) (v : Value) (d p : Bytes) (ms : List Model)
      → from_slice bytes ≡ ok v
      → as_str (at_key v keys.default_key) ≡ some d
      → decode_models j bytes keys ≡ ok ms
      → listed d ms ≡ true
      → select_model {V = Value} (record { models = ms; last_used = none }) [] p
        ≡ ok (d, Provenance.cached)
  unfolding decode_models
  decode_models-default bytes keys v d p ms parses served h l =
      models_of-default keys v d p _ ms served (rw parses at h) l

  models_error_kind : (detail : Bytes) → (models_error {V = Value} detail).kind ≡ provider 502
  unfolding models_error
  models_error_kind detail = refl

  shape_error_kind : (c : Collection) → (shape_error j c).kind ≡ provider 502
  unfolding shape_error models_error
  shape_error_kind (Collection.array_of key id_key) = refl
  shape_error_kind (Collection.map_of key) = refl

  models_of-error :
      (keys : ModelKeys) (v : Value) (o : Option (List (Bytes × Value))) (e : CanonicalError Value)
      → models_of j keys v o ≡ err e
      → e.kind ≡ provider 502
  models_of-error keys v none e h =
      let same : shape_error j keys.collection ≡ e = cc in
      ap (λ x. x.kind) (sym same) ∙ shape_error_kind keys.collection
  models_of-error keys v (some es) e h = cc

  decode_parsed-error :
      (keys : ModelKeys) (r : Result Bytes Value) (e : CanonicalError Value)
      → decode_parsed j keys r ≡ err e
      → e.kind ≡ provider 502
  decode_parsed-error keys (ok v) e h = models_of-error keys v _ e h
  decode_parsed-error keys (err text) e h =
      let same : models_error text ≡ e = cc in ap (λ x. x.kind) (sym same) ∙ models_error_kind text

  -- Whatever is wrong with the body of a model list, the error is that of a provider with status
  -- 502, which exits 70 and may be retried.
  pub decode_models-error :
      (bytes : Bytes) (keys : ModelKeys) (e : CanonicalError Value)
      → decode_models j bytes keys ≡ err e
      → (e.kind ≡ provider 502) × (exit_code e.kind ≡ 70) × (retryable e.kind ≡ true)
  unfolding decode_models
  decode_models-error bytes keys e h =
      let k = decode_parsed-error keys (from_slice bytes) e h in
      (k, ap exit_code k ∙ (unfold exit_code in refl), ap retryable k ∙ (unfold retryable in refl))
