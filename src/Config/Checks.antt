-- ===== src/Config/Checks.antt =====
-- internal/environment/config.go: what the loops and the comparison of `Parse` accept.
use mathlib.Core.List.{Permᴰ}
use mathlib.Core.List.Permᴰ
use course_infra.Base.{
  ℕ, suc, ◌≡◌, ◌≢◌, refl, sym, subst, String, true, false, List, [], ◌∷◌, arith, All, eq_iff, inl,
  inr,
}
use course_infra.Errors.{Result-cases, ok}
use course_infra.Sorting.{sort}
use course_infra.Sorting.Laws.{IsDistinct, sort-perm, sort-eq_of_perm}
use course_infra.Catalog.{is_component}
use course_infra.Catalog.Environment.{EnvVariable, is_built_in_env_name}
use course_infra.Config.{
  check_components, check_env, contains, itself, texts_equal, matches_env_name, contains_control,
}

-- A variable that the contract allows.
pub record IsAllowed (v : EnvVariable) : Type 0 where
  pub named : matches_env_name v.name ≡ true
  pub free : is_built_in_env_name v.name ≡ false
  pub single_line : contains_control v.value ≡ false

-- Names that may follow the names `seen`.
pub record AreFresh (seen names : List String) : Type 0 where
  pub known : All (λ n. is_component n ≡ true) names
  pub unseen : All (λ n. contains n seen ≡ false) names
  pub distinct : IsDistinct itself names

unseen-rest :
    (name : String) (seen names : List String)
    → All (λ n. contains n (name ∷ seen) ≡ false) names
    → All (λ n. contains n seen ≡ false) names × All (λ n. name ≢ n) names
unseen-rest name seen [] h = (tt, tt)
unseen-rest name seen (n ∷ names) h =
    let (a, b) = unseen-rest name seen names h.1 in
    let c = h.0 in ((ground arith, a), (λ e. ground (arith, eq_iff name n), b))

seen-rest :
    (name : String) (seen names : List String)
    → All (λ n. contains n seen ≡ false) names
    → All (λ n. name ≢ n) names
    → All (λ n. contains n (name ∷ seen) ≡ false) names
seen-rest name seen [] h k = tt
seen-rest name seen (n ∷ names) h k =
    let a = h.0 in let b = k.0 in (ground (arith, eq_iff name n), seen-rest name seen names h.1 k.1)

pub check_components-AreFresh :
    (path : String) (index : ℕ) (seen names : List String)
    → check_components path index seen names ≡ ok tt
    → AreFresh seen names
unfolding check_components
check_components-AreFresh path index seen [] h = record { known = tt; unseen = tt; distinct = tt }
check_components-AreFresh path index seen (name ∷ names) h =
    let r = check_components-AreFresh path (suc index) (name ∷ seen) names (ground arith) in
    let (a, b) = unseen-rest name seen names r.unseen in
    record {
      known = (ground arith, r.known);
      unseen = (ground arith, a);
      distinct = (b, r.distinct);
    }

pub check_components_lem :
    (path : String) (index : ℕ) (seen names : List String)
    → AreFresh seen names
    → check_components path index seen names ≡ ok tt
unfolding check_components
check_components_lem path index seen [] f = refl
check_components_lem path index seen (name ∷ names) f =
    let rest = check_components_lem path (suc index) (name ∷ seen) names (record {
      known = f.known.1;
      unseen = seen-rest name seen names f.unseen.1 f.distinct.0;
      distinct = f.distinct.1;
    }) in
    rw (f.known.0, f.unseen.0) rest

pub check_env-ok :
    (path : String) (vs : List EnvVariable) {custom : List EnvVariable}
    → check_env path vs ≡ ok custom
    → (custom ≡ vs) × All IsAllowed vs
unfolding check_env
check_env-ok path [] h = (ground arith, tt)
check_env-ok path (v ∷ vs) h = elim (Result-cases (check_env path vs)) [
  | inl (custom, e) ↦
      let (a, b) = check_env-ok path vs e in
      (
        ground arith,
        (record { named = ground arith; free = ground arith; single_line = ground arith }, b),
      )
  | inr (x, e) ↦ absurd (ground arith)
]

pub check_env_lem :
    (path : String) (vs : List EnvVariable) → All IsAllowed vs → check_env path vs ≡ ok vs
unfolding check_env
check_env_lem path [] h = refl
check_env_lem path (v ∷ vs) h =
    let a = h.0 in rw (a.named, a.free, a.single_line, check_env_lem path vs h.1)

texts_equal_iff : (ss ts : List String) → texts_equal ss ts ≡ true → ss ≡ ts
texts_equal_iff [] [] h = refl
texts_equal_iff [] (t ∷ ts) h = cc
texts_equal_iff (s ∷ ss) [] h = cc
texts_equal_iff (s ∷ ss) (t ∷ ts) h = ground (arith, eq_iff s t, texts_equal_iff ss ts)

pub texts_equal_refl : (ss : List String) → texts_equal ss ss ≡ true
texts_equal_refl [] = refl
texts_equal_refl (s ∷ ss) = ground (arith, eq_iff s s, texts_equal_refl ss)

-- The comparison of the sorted lists is one of their members.
pub perm_of_texts_equal :
    (ss ts : List String) → texts_equal (sort itself ss) (sort itself ts) ≡ true → Permᴰ ss ts
perm_of_texts_equal ss ts h = Permᴰ.trans (Permᴰ.symm (sort-perm itself ss)) (
    subst (λ l. Permᴰ l ts) (sym (texts_equal_iff (sort itself ss) (sort itself ts) h))
      (sort-perm itself ts))

pub texts_equal_of_perm :
    (ss ts : List String)
    → Permᴰ ss ts
    → IsDistinct itself ss
    → texts_equal (sort itself ss) (sort itself ts) ≡ true
texts_equal_of_perm ss ts p d = rw (sort-eq_of_perm itself p d) (texts_equal_refl (sort itself ts))
