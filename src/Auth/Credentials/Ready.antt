-- ===== src/Auth/Credentials/Ready.antt =====
-- src/auth/mod.rs: the credentials of a provider that resolution completed.
use mathlib.Core.Path.{subst}
use brazen.Base.{
  ℕ, sym, ◌++◌, str, ap, ◌∙◌, false, Option, none, some, Bytes, ◌≡◌, refl, Option-cases, inl, inr,
  arith,
}
use brazen.Base.Result.{Result, ok, err, ◌>>=◌}
use brazen.Auth.Credentials.{
  borrowed_from, Cred, api_key, bearer_token, oauth, CredSource, CredStore, AuthCtx, FetchedCred,
  stored, ambient, missing, owned, borrowed, state_of, fetch_cred, cred_state, require_header,
  secret_of, auth_error, resolved_secret, header_value, set_auth_header, apply,
}
use brazen.Canonical.Error.{CanonicalError, auth}
use brazen.Config.Partial.{PartialProvider}
use brazen.Config.Provider.{
  Provider, HeaderSpec, HeaderScheme, raw, bearer, AmbientSpec, is_no_auth, is_oauth2,
}
use brazen.Config.Row.{complete}
use brazen.Config.Row.Complete.{complete-IsComplete}
use brazen.Protocol.Wire.{WireRequest, header, header-set_header}

-- `ResolvedConfig::auth_ctx` of src/config/resolved.rs
unfoldable pub auth_ctx : Provider → Option Bytes → AuthCtx
auth_ctx p inline_key = record {
  store_key = p.name;
  inline_key = inline_key;
  api_header = p.api_header;
  oauth_row = p.oauth;
  ambient = p.ambient;
}

-- The secret that a credential of one of the static kinds holds.
pub data Plain : Cred → Bytes → Type 0 where
  of_key : {s : Bytes} → Plain (api_key s) s
  of_token : {s : Bytes} → Plain (bearer_token s) s

oauth-Plain :
    {access refresh s : Bytes} {expires : ℕ} {scope account : Option Bytes}
    → ¬ Plain (oauth access refresh expires scope account) s
oauth-Plain plain = elim plain [ ]

-- Where the secret of a request comes from: the key given inline; else the provider's entry in the
-- store; else, where the store has no entry, what is discovered for the row.
pub data Secret (p : Provider) (store : CredStore) : Option Bytes → Bytes → Type 0 where
  given : {s : Bytes} → Secret p store (some s) s
  kept : {s : Bytes} (c : Cred) → store.get p.name ≡ some c → Plain c s → Secret p store none s
  found :
      {s : Bytes} (c : Cred) (spec : AmbientSpec)
      → store.get p.name ≡ none
      → p.ambient ≡ some spec
      → store.discover spec ≡ some c
      → Plain c s
      → Secret p store none s

-- A secret in the words of a scheme.
abbrev pub spelled : HeaderScheme → Bytes → Bytes
spelled raw secret = secret
spelled bearer secret = str "Bearer " ++ secret

module _ (V : Type 0) (p : Provider) (store : CredStore) (inline_key : Option Bytes) where
  -- A request that carries the secret in the header of the specification, or, just where there is
  -- no secret, a failure of the kind that exits with 77.
  abbrev pub Carries : HeaderSpec → Result (CanonicalError V) WireRequest → Type 0
  Carries spec (ok wire) =
      (secret : Bytes) × Secret p store inline_key secret
      × (header wire spec.name ≡ some (spelled spec.scheme secret))
  Carries spec (err e) = (e.kind ≡ auth) × ¬ ((secret : Bytes) × Secret p store inline_key secret)

  abbrev Resolves : Result (CanonicalError V) Bytes → Type 0
  Resolves (ok secret) = Secret p store inline_key secret
  Resolves (err e) = (e.kind ≡ auth) × ¬ ((secret : Bytes) × Secret p store inline_key secret)

  -- A credential that stands for the secret, the same ones.
  same-Resolves :
      (row : Bytes) (c : Cred) (source : CredSource)
      → ((s : Bytes) → Plain c s → Secret p store inline_key s)
      → ((s : Bytes) → Secret p store inline_key s → Plain c s)
      → Resolves (secret_of {V = V} row (some (record { cred = c; source = source })))
  unfolding auth_error
  same-Resolves row (api_key s) source to from = to s of_key
  same-Resolves row (bearer_token s) source to from = to s of_token
  same-Resolves row (oauth access refresh expires scope account) source to from =
      (refl, λ (s, secret). oauth-Plain (from s secret))

module _ {p : Provider} {store : CredStore} where
  Secret-kept :
      {s : Bytes} (c : Cred) → store.get p.name ≡ some c → Secret p store none s → Plain c s
  Secret-kept {s} c e (kept c' e' plain) =
      let same : c' ≡ c = cc in subst (λ x. Plain x s) same plain
  Secret-kept c e (found c' spec e' a d plain) = absurd cc

  Secret-found :
      {s : Bytes} (c : Cred) (spec : AmbientSpec)
      → store.get p.name ≡ none
      → p.ambient ≡ some spec
      → store.discover spec ≡ some c
      → Secret p store none s
      → Plain c s
  Secret-found c spec e a d (kept c' e' plain) = absurd cc
  Secret-found {s} c spec e a d (found c' spec' e' a' d' plain) =
      let same : spec' ≡ spec = cc in
      let discovered : store.discover spec' ≡ some c = ap store.discover same ∙ d in
      let one : c' ≡ c = cc in subst (λ x. Plain x s) one plain

  Secret-none : {s : Bytes} → store.get p.name ≡ none → p.ambient ≡ none → ¬ Secret p store none s
  Secret-none e a (kept c e' plain) = cc
  Secret-none e a (found c spec e' a' d plain) = cc

  Secret-undiscovered :
      {s : Bytes} (spec : AmbientSpec)
      → store.get p.name ≡ none
      → p.ambient ≡ some spec
      → store.discover spec ≡ none
      → ¬ Secret p store none s
  Secret-undiscovered spec e a d (kept c e' plain) = cc
  Secret-undiscovered spec e a d (found c spec' e' a' d' plain) =
      let same : spec' ≡ spec = cc in
      let undiscovered : store.discover spec' ≡ none = ap store.discover same ∙ d in cc

abbrev FetchedFrom : (V : Type 0) → Provider → CredStore → AmbientSpec → Option Cred → Type 0
FetchedFrom V p store spec o =
    Resolves V p store none (secret_of p.name (borrowed_from spec.path o))

resolved_secret-Resolves :
    (V : Type 0) (p : Provider) (store : CredStore) (inline_key : Option Bytes)
    → Resolves V p store inline_key (resolved_secret store (auth_ctx p inline_key))
unfolding resolved_secret auth_ctx fetch_cred auth_error
resolved_secret-Resolves V p store (some s) = given
resolved_secret-Resolves V p store none = elim (Option-cases (store.get p.name)) [
  | inr (c, e) ↦
      simp e (same-Resolves V p store none p.name c owned (λ s. kept c e) (λ s. Secret-kept c e))
  | inl e ↦ elim (Option-cases p.ambient) [
    | inl a ↦ simp (e, a) (refl, λ (s, secret). Secret-none e a secret)
    | inr (spec, a) ↦ elim (Option-cases (store.discover spec)) [
      | inl d ↦
          simp (e, a)
            (subst (FetchedFrom V p store spec) (sym d)
              (refl, λ (s, secret). Secret-undiscovered spec e a d secret))
      | inr (c, d) ↦
          simp (e, a)
            (subst (FetchedFrom V p store spec) (sym d) (
              same-Resolves V p store none p.name c (borrowed spec.path) (λ s. found c spec e a d)
                (λ s. Secret-found c spec e a d)))
    ]
  ]
]

header_value-spelled :
    (scheme : HeaderScheme) (s : Bytes) → header_value scheme s ≡ spelled scheme s
unfolding header_value
header_value-spelled raw s = refl
header_value-spelled bearer s = refl

carried :
    (V : Type 0) (p : Provider) (store : CredStore) (inline_key : Option Bytes) (wire : WireRequest)
    (spec : HeaderSpec) (secret : Result (CanonicalError V) Bytes)
    → Resolves V p store inline_key secret
    → Carries V p store inline_key spec (secret >>= λ s. ok (set_auth_header wire spec s))
unfolding set_auth_header
carried V p store inline_key wire spec (ok secret) h = (
  secret,
  h,
  header-set_header wire spec.name (header_value spec.scheme secret)
      ∙ ap some (header_value-spelled spec.scheme secret),
)
carried V p store inline_key wire spec (err e) h = h

-- A request to a provider that resolution completed and that takes a static key or token either
-- carries the secret in the row's header, as it is or behind `Bearer `, or, just where there is no
-- secret, fails with the kind of missing credentials (exit 77). The secret is the inline key; without
-- one the key or token that the store holds for the provider; without an entry there the one
-- discovered for the row. The error of a row without a header does not occur.
pub apply-Carries :
    (V : Type 0) {W : Type 0} (name : Bytes) (row : PartialProvider W) (p : Provider)
    → complete name row ≡ ok p
    → is_no_auth p.auth ≡ false
    → is_oauth2 p.auth ≡ false
    → (wire : WireRequest) (inline_key : Option Bytes) (store : CredStore)
    → (spec : HeaderSpec) × (p.api_header ≡ some spec)
      × Carries V p store inline_key spec (apply wire (auth_ctx p inline_key) store)
unfolding apply require_header auth_ctx
apply-Carries V name row p done keyed static wire inline_key store =
    elim (Option-cases p.api_header) [
      | inl e ↦ absurd (ground (arith, e, (complete-IsComplete name row p done).header keyed))
      | inr (spec, e) ↦ (
        spec,
        e,
        simp e (
            carried V p store inline_key wire spec _
              (resolved_secret-Resolves V p store inline_key)),
      )
    ]

-- Only nothing fetched is missing.
source_missing :
    (source : CredSource) → elim source [ owned ↦ stored | borrowed path ↦ ambient ] ≡ missing → ⊥
source_missing owned h = cc
source_missing (borrowed path) h = cc

state-missing : (f : Option FetchedCred) → state_of f ≡ missing → f ≡ none
state-missing none h = refl
state-missing (some f) h = absurd (source_missing f.source h)

none-fails :
    {V : Type 0} (row : Bytes) (f : Option FetchedCred)
    → (next : Bytes → Result (CanonicalError V) WireRequest) → f ≡ none
    → (e : CanonicalError V) × ((secret_of row f >>= next) ≡ err e) × (e.kind ≡ auth)
unfolding auth_error
none-fails row none next h = (_, refl, refl)
none-fails row (some f) next h = absurd cc

-- The listing agrees with the request: where the state of a row that takes a key or a token is
-- `missing`, the request fails for want of a credential.
pub apply-missing :
    (V : Type 0) (p : Provider) (wire : WireRequest) (inline_key : Option Bytes) (store : CredStore)
    → is_no_auth p.auth ≡ false
    → is_oauth2 p.auth ≡ false
    → cred_state store p.name p.auth p.ambient inline_key ≡ missing
    → (e : CanonicalError V) × (apply wire (auth_ctx p inline_key) store ≡ err e) × (e.kind ≡ auth)
unfolding apply cred_state resolved_secret auth_ctx fetch_cred auth_error
apply-missing V p wire none store keyed static h =
    none-fails p.name (fetch_cred store (auth_ctx p none)) _
      (state-missing (fetch_cred store (auth_ctx p none)) (ground arith))
apply-missing V p wire (some key) store keyed static h = absurd (ground arith)
