-- ===== src/Catalog/Variables.antt =====
-- internal/catalog/environment.go: the entries of the labs and their variables.
use course_infra.Base.{
  ℕ, suc, zero, ◌≡◌, ◌≢◌, refl, String, Bool, true, false, none, some, List, [], ◌∷◌, arith, All,
  ◌⊎◌, inl, inr, eq_iff, ◌&&◌, not,
}
use course_infra.Sorting.Laws.{IsDistinct}
use course_infra.Text.{◌<>◌, padded}
use course_infra.Catalog.{Component, components, namespace, ports, resolve, endpoints}
use course_infra.Catalog.Environment.{
  EnvVariable, Environment, Found, found, absent, panic, env_for_lab, environment_for_lab, has_name,
  is_built_in_env_name,
}

-- The labs that have an entry.
pub data IsLab : ℕ → Type 0 where
  lab_1 : IsLab 1
  lab_2 : IsLab 2
  lab_3 : IsLab 3
  lab_4 : IsLab 4
  lab_5 : IsLab 5

pub components_cases : (lab : ℕ) → (components lab ≡ none) ⊎ IsLab lab
unfolding components
components_cases zero = inl refl
components_cases (suc zero) = inr lab_1
components_cases (suc (suc zero)) = inr lab_2
components_cases (suc (suc (suc zero))) = inr lab_3
components_cases (suc (suc (suc (suc zero)))) = inr lab_4
components_cases (suc (suc (suc (suc (suc zero))))) = inr lab_5
components_cases (suc (suc (suc (suc (suc (suc n)))))) = inl (ground arith)

-- A test that decides whether no name occurs twice.
distinct : List EnvVariable → Bool
distinct [] = true
distinct (v ∷ vs) = not (has_name v.name vs) && distinct vs

has_name-false :
    (name : String) (vs : List EnvVariable) → has_name name vs ≡ false → All (λ v. name ≢ v.name) vs
unfolding has_name
has_name-false name [] h = tt
has_name-false name (v ∷ vs) h = (
  λ e. ground (arith, eq_iff v.name name),
  has_name-false name vs (ground (arith, eq_iff v.name name)),
)

distinct-IsDistinct : (vs : List EnvVariable) → distinct vs ≡ true → IsDistinct (λ v. v.name) vs
unfolding distinct
distinct-IsDistinct [] h = tt
distinct-IsDistinct (v ∷ vs) h =
    (has_name-false v.name vs (ground arith), distinct-IsDistinct vs (ground arith))

-- Every name of the list is reserved.
reserved : List EnvVariable → Bool
reserved [] = true
reserved (v ∷ vs) = is_built_in_env_name v.name && reserved vs

reserved-All :
    (vs : List EnvVariable) → reserved vs ≡ true → All (λ v. is_built_in_env_name v.name ≡ true) vs
unfolding reserved
reserved-All [] h = tt
reserved-All (v ∷ vs) h = (ground arith, reserved-All vs (ground arith))

is_good : Found (List EnvVariable) → Bool
is_good (found vs) = distinct vs && reserved vs
is_good absent = false
is_good (panic text) = false

env_for_lab-is_good : {lab : ℕ} → IsLab lab → is_good (env_for_lab lab) ≡ true
unfolding is_good distinct reserved is_built_in_env_name env_for_lab
env_for_lab-is_good lab_1 = refl
env_for_lab-is_good lab_2 = refl
env_for_lab-is_good lab_3 = refl
env_for_lab-is_good lab_4 = refl
env_for_lab-is_good lab_5 = refl

record IsGood (vs : List EnvVariable) : Type 0 where
  names : IsDistinct (λ v. v.name) vs
  all_reserved : All (λ v. is_built_in_env_name v.name ≡ true) vs

is_good-IsGood :
    (r : Found (List EnvVariable))
    → is_good r ≡ true
    → (vs : List EnvVariable) × (r ≡ found vs) × IsGood vs
unfolding is_good
is_good-IsGood (found vs) h = (
  vs,
  refl,
  record {
    names = distinct-IsDistinct vs (ground arith);
    all_reserved = reserved-All vs (ground arith);
  },
)
is_good-IsGood absent h = cc
is_good-IsGood (panic text) h = cc

-- What the entry of a lab says.
pub record IsEntry (lab : ℕ) (e : Environment) : Type 0 where
  pub lab_eq : e.lab ≡ lab
  pub namespace_eq : namespace lab ≡ some e.namespace
  pub components_eq : components lab ≡ some e.components
  pub ports_eq : ports lab ≡ some e.ports
  pub names : IsDistinct (λ v. v.name) e.env
  pub all_reserved : All (λ v. is_built_in_env_name v.name ≡ true) e.env

components_of_IsLab : {lab : ℕ} → IsLab lab → (l : List Component) × (components lab ≡ some l)
unfolding components
components_of_IsLab lab_1 = (_, refl)
components_of_IsLab lab_2 = (_, refl)
components_of_IsLab lab_3 = (_, refl)
components_of_IsLab lab_4 = (_, refl)
components_of_IsLab lab_5 = (_, refl)

namespace_lem :
    (lab : ℕ) {l : List Component}
    → components lab ≡ some l
    → namespace lab ≡ some ("tripgo-lab-" <> padded lab)
unfolding namespace
namespace_lem lab c = rw (c, namespace)

ports_lem :
    (lab : ℕ) {l : List Component}
    → components lab ≡ some l
    → ports lab ≡ some (resolve lab endpoints)
unfolding ports
ports_lem lab c = rw (c, ports)

environment_for_lab_lem :
    (lab : ℕ) {l : List Component} {vs : List EnvVariable}
    → components lab ≡ some l
    → env_for_lab lab ≡ found vs
    → environment_for_lab lab
      ≡ found (record {
        lab = lab;
        namespace = "tripgo-lab-" <> padded lab;
        components = l;
        ports = resolve lab endpoints;
        env = vs;
      })
unfolding environment_for_lab
environment_for_lab_lem lab c h =
    rw (c, environment_for_lab, h, namespace_lem lab c, ports_lem lab c)

-- Every number either names no lab, and then has no components and no entry, or it has an entry
-- with its own namespace, components and ports, in which no variable is set twice and every name
-- is reserved: the lookup never panics.
pub environment_for_lab_total :
    (lab : ℕ)
    → ((components lab ≡ none) × (environment_for_lab lab ≡ absent))
      ⊎ ((e : Environment) × (environment_for_lab lab ≡ found e) × IsEntry lab e)
unfolding environment_for_lab
environment_for_lab_total lab = elim (components_cases lab) [
  | inl c ↦ inl (c, rw (c, environment_for_lab))
  | inr l ↦
      let (list, c) = components_of_IsLab l in
      let (vs, h, g) = is_good-IsGood (env_for_lab lab) (env_for_lab-is_good l) in
      inr (
        _,
        environment_for_lab_lem lab c h,
        record {
          lab_eq = refl;
          namespace_eq = namespace_lem lab c;
          components_eq = c;
          ports_eq = ports_lem lab c;
          names = g.names;
          all_reserved = g.all_reserved;
        },
      )
]
