-- ===== src/Canonical/Model/Choice.antt =====
-- src/canonical/model.rs: which model a seed chooses.
use brazen.Base.{
  Bool, true, false, ◌||◌, List, [], ◌∷◌, Option, none, some, Bytes, bytes_eq, bytes_eq_iff, ◌≡◌,
  ◌≢◌, refl, ap, inl, inr, arith, Bool-cases,
}
use brazen.Base.Result.{Result, ok, err}
use brazen.Canonical.Error.{CanonicalError}
use brazen.Canonical.Model.{
  Model, CachedModels, Provenance, find, or_model, first, has_id, find_last_used, default_model,
  matched, chosen, placed, select_model,
}

-- Is the identifier in the list?
unfoldable pub listed : Bytes → List Model → Bool
listed id [] = false
listed id (m ∷ ms) = has_id id m || listed id ms

find-listed :
    (p : Model → Bool) (ms : List Model) (m : Model) → find p ms ≡ some m → listed m.id ms ≡ true
unfolding find listed
find-listed p [] m h = cc
find-listed p (x ∷ ms) m h = elim (Bool-cases (p x)) [
  | inl e ↦
      let found : some x ≡ some m = rw e at h in
      let same : x ≡ m = cc in rw ((bytes_eq_iff x.id m.id).1 (ap (λ y. y.id) same)) refl
  | inr e ↦ let later = find-listed p ms m (rw e at h) in ground (arith, later)
]

pub find-has_id :
    (id : Bytes) (ms : List Model)
    → listed id ms ≡ true
    → (m : Model) × (find (has_id id) ms ≡ some m) × (m.id ≡ id)
unfolding find listed
find-has_id id [] h = cc
find-has_id id (x ∷ ms) h = elim (Bool-cases (bytes_eq x.id id)) [
  | inl e ↦ (x, rw e refl, (bytes_eq_iff x.id id).0 e)
  | inr e ↦ let (m, found, same) = find-has_id id ms (rw e at h) in (m, rw e found, same)
]

find-none : (id : Bytes) (ms : List Model) → listed id ms ≡ false → find (has_id id) ms ≡ none
unfolding find listed
find-none id [] h = refl
find-none id (x ∷ ms) h = ground (arith, find-none id ms)

find_flag_none : (ms : List Model) → first ms ≡ none → ms ≡ []
find_flag_none [] h = refl
find_flag_none (m ∷ ms) h = cc

or_model-first :
    (a b : Option Model) (ms : List Model) → or_model a (or_model b (first ms)) ≡ none → ms ≡ []
or_model-first none none ms h = find_flag_none ms h
or_model-first none (some m) ms h = cc
or_model-first (some m) b ms h = cc

find_last_used-listed :
    (o : Option Bytes) (ms : List Model) (m : Model)
    → find_last_used o ms ≡ some m
    → listed m.id ms ≡ true
find_last_used-listed none ms m h = cc
find_last_used-listed (some id) ms m h = find-listed (has_id id) ms m h

first-listed : (ms : List Model) (m : Model) → first ms ≡ some m → listed m.id ms ≡ true
unfolding listed
first-listed [] m h = cc
first-listed (x ∷ ms) m h =
    let same : x ≡ m = cc in rw ((bytes_eq_iff x.id m.id).1 (ap (λ y. y.id) same)) refl

or_model-listed :
    (a b : Option Model) (ms : List Model)
    → ((m : Model) → a ≡ some m → listed m.id ms ≡ true)
    → ((m : Model) → b ≡ some m → listed m.id ms ≡ true)
    → (m : Model) → or_model a b ≡ some m
    → listed m.id ms ≡ true
or_model-listed none b ms ha hb m h = hb m h
or_model-listed (some x) b ms ha hb m h = ha m h

default_model-listed :
    (c : CachedModels) (m : Model) → default_model c ≡ some m → listed m.id c.models ≡ true
unfolding default_model
default_model-listed c =
    or_model-listed _ _ c.models (find_last_used-listed c.last_used c.models)
      (or_model-listed _ _ c.models (find-listed _ c.models) (first-listed c.models))

matched-listed :
    (seed : Bytes) (ms : List Model) (m : Model) → matched seed ms ≡ some m → listed m.id ms ≡ true
unfolding matched
matched-listed seed ms = or_model-listed _ _ ms (find-listed _ ms) (find-listed _ ms)

-- What an answer promises: out of the cache, a model of the list; taken literally, the seed itself,
-- which the list lacks; an error, an empty seed and an empty list.
abbrev pub Answers :
    {V : Type 0} → CachedModels → Bytes → Result (CanonicalError V) (Bytes × Provenance) → Type 0
Answers c seed (ok (id, Provenance.cached)) = listed id c.models ≡ true
Answers c seed (ok (id, Provenance.verbatim)) = (id ≡ seed) × (listed seed c.models ≡ false)
Answers c seed (err e) = (seed ≡ []) × (c.models ≡ [])

module _ (V : Type 0) where
  chosen-Answers :
      (c : CachedModels) (provider : Bytes) (o : Option Model)
      → default_model c ≡ o
      → Answers c [] (chosen {V = V} provider o)
  unfolding default_model
  chosen-Answers c provider none h = (refl, or_model-first _ _ c.models h)
  chosen-Answers c provider (some m) h = default_model-listed c m h

  placed-Answers :
      (c : CachedModels) (seed : Bytes) (o : Option Model)
      → matched seed c.models ≡ o
      → Answers c seed (placed {V = V} seed o)
  unfolding matched
  placed-Answers c seed none h = (
    refl,
    elim (Bool-cases (listed seed c.models)) [
      | inr e ↦ e
      | inl e ↦
          let (m, found, same) = find-has_id seed c.models e in
          let clash : some m ≡ none = rw found at h in cc
    ],
  )
  placed-Answers c seed (some m) h = matched-listed seed c.models m h

  -- What is chosen is always accounted for: an answer from the cache names a model of the list, a
  -- literal answer is the seed, which the list lacks, and an error needs an empty seed and an empty
  -- list.
  pub select_model-Answers :
      (c : CachedModels) (seed provider : Bytes)
      → Answers c seed (select_model {V = V} c seed provider)
  unfolding select_model
  select_model-Answers c [] provider = chosen-Answers c provider _ refl
  select_model-Answers c (b ∷ bs) provider = placed-Answers c (b ∷ bs) _ refl

  -- A seed that is the identifier of a listed model chooses that model, whatever other identifiers
  -- contain it; an empty seed chooses the model that was used last, if the list still has it.
  pub select_model-listed :
      (c : CachedModels) (id provider : Bytes)
      → listed id c.models ≡ true
      → id ≢ []
      → (select_model {V = V} c id provider ≡ ok (id, Provenance.cached))
        × (select_model {V = V} (record c { last_used = some id }) [] provider
            ≡ ok (id, Provenance.cached))
  unfolding select_model matched default_model
  select_model-listed c [] provider h nonempty = absurd (nonempty refl)
  select_model-listed c (b ∷ bs) provider h nonempty =
      let (m, found, same) = find-has_id (b ∷ bs) c.models h in
      (rw (found, same) refl, rw (found, same) refl)
