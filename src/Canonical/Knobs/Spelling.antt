-- ===== src/Canonical/Knobs/Spelling.antt =====
-- src/canonical/knobs.rs: the spellings of an effort.
use mathlib.Core.Path.{subst}
use brazen.Base.{
  none, some, Bytes, str, bytes_eq, bytes_eq_iff, ◌≡◌, refl, sym, ◌↔◌, inl, inr, Bool-cases,
}
use brazen.Canonical.Knobs.{ReasoningEffort, low, medium, high, as_str, effort_from_str}

effort_from_str-as_str : (e : ReasoningEffort) → effort_from_str (as_str e) ≡ some e
unfolding effort_from_str as_str bytes_eq str
effort_from_str-as_str low = refl
effort_from_str-as_str medium = refl
effort_from_str-as_str high = refl

as_str-effort_from_str :
    (s : Bytes) (e : ReasoningEffort) → effort_from_str s ≡ some e → as_str e ≡ s
unfolding effort_from_str as_str
as_str-effort_from_str s e h = elim (Bool-cases (bytes_eq s (str "low"))) [
  | inl is_low ↦
      let same : low ≡ e = let found : some low ≡ some e = rw is_low at h in cc in
      rw⁻¹ same (sym ((bytes_eq_iff s (str "low")).0 is_low))
  | inr not_low ↦ elim (Bool-cases (bytes_eq s (str "medium"))) [
    | inl is_medium ↦
        let same : medium ≡ e =
          let found : some medium ≡ some e = rw (not_low, is_medium) at h in cc in
        rw⁻¹ same (sym ((bytes_eq_iff s (str "medium")).0 is_medium))
    | inr not_medium ↦ elim (Bool-cases (bytes_eq s (str "high"))) [
      | inl is_high ↦
          let same : high ≡ e =
            let found : some high ≡ some e = rw (not_low, not_medium, is_high) at h in cc in
          rw⁻¹ same (sym ((bytes_eq_iff s (str "high")).0 is_high))
      | inr not_high ↦ let found : none ≡ some e = rw (not_low, not_medium, not_high) at h in cc
    ]
  ]
]

-- A text parses as an effort exactly if it is the spelling of that effort.
pub effort_from_str_iff :
    (s : Bytes) (e : ReasoningEffort) → (effort_from_str s ≡ some e) ↔ (as_str e ≡ s)
effort_from_str_iff s e = (
  as_str-effort_from_str s e,
  λ h. subst (λ t. effort_from_str t ≡ some e) h (effort_from_str-as_str e),
)
