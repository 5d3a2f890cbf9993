-- ===== src/Lab/Listing/Names.antt =====
-- internal/lab/service.go: `labFromNamespace` inverts the catalog's namespaces.
use course_infra.Base.{
  ◌≡◌, ◌≢◌, refl, sym, ap, ◌∙◌, ℕ, zero, suc, ◌≤◌, String, Option, none, some, List, [], ◌∷◌, inl,
  inr, arith, All, Bool-cases, Option-cases, ltb, str_eq, eq_iff, ◌||◌, if◌then◌else◌,
}
use course_infra.Catalog.{namespace}
use course_infra.Lab.Operations.{namespace_of}
use course_infra.Lab.Listing.{scan_lab, accepted_lab, lab_from_namespace}

accepted_lab-some :
    (name : String) (read lab : ℕ)
    → accepted_lab name read ≡ some lab
    → (1 ≤ lab) × (lab ≤ 5) × (namespace_of lab ≡ name)
unfolding accepted_lab
accepted_lab-some name read lab h = elim (Bool-cases (ltb read 1 || ltb 5 read)) [
  | inl e ↦ absurd (ground (arith, rw (accepted_lab, e) at h))
  | inr e ↦ elim (Bool-cases (str_eq (namespace_of read) name)) [
    | inr f ↦ absurd (ground (arith, rw (accepted_lab, e, f) at h))
    | inl f ↦
        let same : read ≡ lab = ground (arith, rw (accepted_lab, e, f) at h) in
        (
          ground (arith, e),
          ground (arith, e),
          ap namespace_of (sym same) ∙ (eq_iff (namespace_of read) name).0 f,
        )
  ]
]

-- A name that is read as a lab is the namespace of this lab.
pub lab_from_namespace-some :
    (name : String) (lab : ℕ)
    → lab_from_namespace name ≡ some lab
    → (1 ≤ lab) × (lab ≤ 5) × (namespace_of lab ≡ name)
unfolding lab_from_namespace
lab_from_namespace-some name lab h = elim (Option-cases (scan_lab name)) [
  | inl e ↦ absurd (ground (arith, rw (lab_from_namespace, e) at h))
  | inr (read, e) ↦ accepted_lab-some name read lab (rw (lab_from_namespace, e) at h)
]

pub namespace_of-some :
    (lab : ℕ) (name : String) → namespace lab ≡ some name → namespace_of lab ≡ name
unfolding namespace_of
namespace_of-some lab name h = rw (namespace_of, h) refl

-- The lab of this namespace, among some labs.
abbrev pub named : List ℕ → String → Option ℕ
named [] name = none
named (lab ∷ labs) name = if str_eq (namespace_of lab) name then some lab else named labs name

abbrev pub all_labs : List ℕ
all_labs = 1 ∷ 2 ∷ 3 ∷ 4 ∷ 5 ∷ []

named-some :
    (labs : List ℕ) (name : String) (lab : ℕ)
    → All (λ n. lab_from_namespace (namespace_of n) ≡ some n) labs
    → named labs name ≡ some lab
    → lab_from_namespace name ≡ some lab
named-some [] name lab h e = absurd (ground arith)
named-some (first ∷ labs) name lab h e = elim (Bool-cases (str_eq (namespace_of first) name)) [
  | inl f ↦
      ap lab_from_namespace (sym ((eq_iff (namespace_of first) name).0 f))
      ∙ h.0
      ∙ rw (named, f) at e
  | inr f ↦ named-some labs name lab h.1 (rw (named, f) at e)
]

named-none :
    (labs : List ℕ) (name : String)
    → named labs name ≡ none
    → All (λ lab. namespace_of lab ≢ name) labs
named-none [] name e = tt
named-none (first ∷ labs) name e = elim (Bool-cases (str_eq (namespace_of first) name)) [
  | inl f ↦ absurd (ground (arith, rw (named, f) at e))
  | inr f ↦
      (ground (arith, eq_iff (namespace_of first) name), named-none labs name (rw (named, f) at e))
]

labs_round_trip : All (λ lab. lab_from_namespace (namespace_of lab) ≡ some lab) all_labs
unfolding namespace_of lab_from_namespace namespace
labs_round_trip = (refl, (refl, (refl, (refl, (refl, tt)))))

in_range : (P : ℕ → Type 0) (lab : ℕ) → 1 ≤ lab → lab ≤ 5 → All P all_labs → P lab
in_range P zero low high h = absurd (omega arith)
in_range P (suc zero) low high h = h.0
in_range P (suc (suc zero)) low high h = h.1.0
in_range P (suc (suc (suc zero))) low high h = h.1.1.0
in_range P (suc (suc (suc (suc zero)))) low high h = h.1.1.1.0
in_range P (suc (suc (suc (suc (suc zero))))) low high h = h.1.1.1.1.0
in_range P (suc (suc (suc (suc (suc (suc lab)))))) low high h = absurd (omega arith)

-- `labFromNamespace` finds the lab of the catalog that has this namespace.
pub lab_from_namespace-named : (name : String) → lab_from_namespace name ≡ named all_labs name
lab_from_namespace-named name = elim (Option-cases (named all_labs name)) [
  | inr (lab, e) ↦ named-some all_labs name lab labs_round_trip e ∙ sym e
  | inl e ↦ elim (Option-cases (lab_from_namespace name)) [
    | inl f ↦ f ∙ sym e
    | inr (lab, f) ↦
        let (low, high, same) = lab_from_namespace-some name lab f in
        absurd
          (in_range (λ n. namespace_of n ≢ name) lab low high (named-none all_labs name e) same)
  ]
]
