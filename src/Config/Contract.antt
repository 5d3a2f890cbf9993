-- ===== src/Config/Contract.antt =====
-- internal/environment/config.go: what `Parse` accepts, and what a configuration promises.
use mathlib.Core.Option.{some-injective}
use mathlib.Core.List.{Permᴰ}
use mathlib.Core.List.Permᴰ
use course_infra.Base.{
  ℕ, ◌≡◌, ◌≢◌, ◌↔◌, refl, sym, ap, ◌∙◌, subst, String, true, false, List, [], ◌∷◌, ◌++◌, arith, All,
  All-append, inl, inr, Option-cases, some, ℤ, pos, negsuc, eqb, eqb_iff,
}
use course_infra.Errors.{Result-cases, ok}
use course_infra.Sorting.{sort}
use course_infra.Sorting.Laws.{IsDistinct, Permᴰ-All, Permᴰ-IsDistinct, sort-perm, sort-eq_of_perm}
use course_infra.Catalog.{Component, components, is_component}
use course_infra.Catalog.Environment.{
  EnvVariable, Environment, environment_for_lab, found, is_built_in_env_name,
}
use course_infra.Catalog.Variables.{
  IsLab, lab_1, lab_2, lab_3, lab_4, lab_5, components_cases, environment_for_lab_total,
}
use course_infra.Config.{
  Config, Document, Decoded, Decoded-cases, DecodeFailure, document, failed, parse, components_of,
  lab_number, is_empty, check_components, check_env, finish, validate, itself, texts_equal,
  environment_variables,
}
use course_infra.Config.Checks.{
  IsAllowed, AreFresh, check_components-AreFresh, check_components_lem, check_env-ok, check_env_lem,
  perm_of_texts_equal, texts_equal_of_perm,
}

-- The document `d` has the configuration `c`.
pub record IsAccepted (d : Document) (c : Config) : Type 0 where
  pub version : d.schema_version ≡ pos 1
  pub schema_version : c.schema_version ≡ pos 1
  pub lab : d.lab ≡ pos c.lab
  pub canonical : components c.lab ≡ some c.components
  pub listed : Permᴰ d.components c.components
  pub allowed : All IsAllowed d.env
  pub custom_env : c.custom_env ≡ sort (λ v. v.name) d.env

-- The canonical lists name known components, each once, and are not empty.
record IsCanonical (l : List Component) : Type 0 where
  fresh : AreFresh [] l
  nonempty : is_empty l ≡ false

IsCanonical-fresh :
    (l : List Component) → check_components "" 0 [] l ≡ ok tt → is_empty l ≡ false → IsCanonical l
IsCanonical-fresh l h n = record { fresh = check_components-AreFresh "" 0 [] l h; nonempty = n }

components-IsCanonical :
    {lab : ℕ} → IsLab lab → (l : List Component) → components lab ≡ some l → IsCanonical l
unfolding components check_components is_component
components-IsCanonical lab_1 l h =
    subst IsCanonical (some-injective _ l h) (IsCanonical-fresh _ refl refl)
components-IsCanonical lab_2 l h =
    subst IsCanonical (some-injective _ l h) (IsCanonical-fresh _ refl refl)
components-IsCanonical lab_3 l h =
    subst IsCanonical (some-injective _ l h) (IsCanonical-fresh _ refl refl)
components-IsCanonical lab_4 l h =
    subst IsCanonical (some-injective _ l h) (IsCanonical-fresh _ refl refl)
components-IsCanonical lab_5 l h =
    subst IsCanonical (some-injective _ l h) (IsCanonical-fresh _ refl refl)

canonical : (lab : ℕ) (l : List Component) → components lab ≡ some l → IsCanonical l
canonical lab l h = elim (components_cases lab) [
  | inl e ↦ cc
  | inr i ↦ components-IsCanonical i l h
]

is_empty-perm : {ss ts : List String} → Permᴰ ss ts → is_empty ss ≡ is_empty ts
is_empty-perm Permᴰ.nil = refl
is_empty-perm (Permᴰ.cons e p) = refl
is_empty-perm (Permᴰ.swap e f) = refl
is_empty-perm (Permᴰ.trans p q) = is_empty-perm p ∙ is_empty-perm q

components_of_pos :
    (z : ℤ) (l : List Component)
    → components_of z ≡ some l
    → (z ≡ pos (lab_number z)) × (components (lab_number z) ≡ some l)
unfolding components_of
components_of_pos (pos n) l h = (refl, h)
components_of_pos (negsuc n) l h = cc

-- What the checks of `Parse` have found when it succeeds, in their order.
record Passed (path : String) (d : Document) (c : Config) : Type 0 where
  expected : List Component
  version : eqb d.schema_version (pos 1) ≡ true
  known : components_of d.lab ≡ some expected
  listed : check_components path 0 [] d.components ≡ ok tt
  env : check_env path d.env ≡ ok d.env
  allowed : All IsAllowed d.env
  last : finish path d (lab_number d.lab) expected d.env ≡ ok c

validate-Passed :
    (path : String) (d : Document) (c : Config) → validate path d ≡ ok c → Passed path d c
unfolding validate
validate-Passed path d c h = elim (Option-cases (components_of d.lab)) [
  | inl e ↦ absurd (ground arith)
  | inr (l, e) ↦ elim (Result-cases (check_components path 0 [] d.components)) [
    | inr (x, f) ↦ absurd (ground arith)
    | inl (u, f) ↦ elim (Result-cases (check_env path d.env)) [
      | inr (x, g) ↦ absurd (ground arith)
      | inl (custom, g) ↦
          let (same, allowed) = check_env-ok path d.env g in
          record {
            expected = l;
            version = ground arith;
            known = e;
            listed = f;
            env = g ∙ ap ok same;
            allowed = allowed;
            last = ground arith;
          }
    ]
  ]
]

finish-ok :
    (path : String) (d : Document) (lab : ℕ) (l : List Component) (custom : List EnvVariable)
    (c : Config)
    → finish path d lab l custom ≡ ok c
    → (texts_equal (sort itself d.components) (sort itself l) ≡ true)
      × (c.schema_version ≡ d.schema_version)
      × (c.lab ≡ lab)
      × (c.components ≡ l)
      × (c.custom_env ≡ sort (λ v. v.name) custom)
unfolding finish
finish-ok path d lab l custom c h = ground arith

pub validate-IsAccepted :
    (path : String) (d : Document) (c : Config) → validate path d ≡ ok c → IsAccepted d c
validate-IsAccepted path d c h =
    let p = validate-Passed path d c h in
    let (same, version, lab, list, env) = finish-ok path d _ p.expected d.env c p.last in
    let (number, known) = components_of_pos d.lab p.expected p.known in
    let one = (eqb_iff d.schema_version (pos 1)).0 p.version in
    record {
      version = one;
      schema_version = version ∙ one;
      lab = number ∙ ap pos (sym lab);
      canonical = ap components lab ∙ known ∙ ap some (sym list);
      listed =
          subst (Permᴰ d.components) (sym list) (perm_of_texts_equal d.components p.expected same);
      allowed = p.allowed;
      custom_env = env;
    }

finish_lem :
    (path : String) (d : Document) (c : Config)
    → IsAccepted d c
    → IsDistinct itself d.components
    → finish path d c.lab c.components d.env ≡ ok c
unfolding finish
finish_lem path d c a distinct =
    rw (texts_equal_of_perm d.components c.components a.listed distinct) (λ i. ok (record {
      schema_version = (a.version ∙ sym a.schema_version) i;
      lab = c.lab;
      components = c.components;
      custom_env = sym a.custom_env i;
    }))

IsAccepted-validate :
    (path : String) (d : Document) (c : Config) → IsAccepted d c → validate path d ≡ ok c
unfolding validate
IsAccepted-validate path d c a =
    let good = canonical c.lab c.components a.canonical in
    let back = Permᴰ.symm a.listed in
    let distinct = Permᴰ-IsDistinct itself back good.fresh.distinct in
    let fresh : AreFresh [] d.components = record {
      known = Permᴰ-All _ back good.fresh.known;
      unseen = Permᴰ-All _ back good.fresh.unseen;
      distinct = distinct;
    } in
    let listed = check_components_lem path 0 [] d.components fresh in
    let full = is_empty-perm a.listed ∙ good.nonempty in
    let known : components_of d.lab ≡ some c.components =
      ap components_of a.lab ∙ (unfold components_of in a.canonical) in
    let version = (eqb_iff d.schema_version (pos 1)).1 a.version in
    rw (validate, version, known, full, listed, check_env_lem path d.env a.allowed)
      (ap (λ n. finish path d n c.components d.env) (ap lab_number a.lab)
        ∙ finish_lem path d c a distinct)

module _ (decode : List ℕ → Decoded) where
  -- `Parse` succeeds with `c` exactly when the bytes decode to a document of schema 1, for a lab
  -- that has components, that lists these components in any order, each once and no others, whose
  -- variables are well-named, not reserved and single-line, and `c` is its normal form: the
  -- components in catalog order, the variables in the order of their names.
  pub parse_iff :
      (path : String) (bytes : List ℕ) (c : Config)
      → (parse decode path bytes ≡ ok c)
        ↔ ((d : Document) × (decode bytes ≡ document d) × IsAccepted d c)
  unfolding parse
  parse_iff path bytes c = (
    λ h. elim (Decoded-cases (decode bytes)) [
      | inl (d, e) ↦ (d, e, validate-IsAccepted path d c (rw (e, parse) at h))
      | inr (f, e) ↦ absurd (refused f e h)
    ],
    λ (d, e, a). rw (e, parse) (IsAccepted-validate path d c a),
  )
    where
      refused : (f : DecodeFailure) → decode bytes ≡ failed f → parse decode path bytes ≡ ok c → ⊥
      refused f e h = cc (rw (e, parse) at h)

-- The configuration does not depend on the order in which a document lists its components, nor on
-- the order in which its variables are visited, where no variable is listed twice.
pub validate_reordered :
    (path : String) (d e : Document) (c : Config)
    → validate path d ≡ ok c
    → e.schema_version ≡ d.schema_version
    → e.lab ≡ d.lab
    → Permᴰ e.components d.components
    → Permᴰ e.env d.env
    → IsDistinct (λ v. v.name) e.env
    → validate path e ≡ ok c
validate_reordered path d e c h version lab listed env distinct =
    let a = validate-IsAccepted path d c h in
    IsAccepted-validate path e c (record {
      version = version ∙ a.version;
      schema_version = a.schema_version;
      lab = lab ∙ a.lab;
      canonical = a.canonical;
      listed = Permᴰ.trans listed a.listed;
      allowed = Permᴰ-All _ (Permᴰ.symm env) a.allowed;
      custom_env = a.custom_env ∙ sym (sort-eq_of_perm (λ v. v.name) env distinct);
    })

apart :
    (name : String) (vs : List EnvVariable)
    → is_built_in_env_name name ≡ true
    → All IsAllowed vs
    → All (λ v. name ≢ v.name) vs
apart name [] b h = tt
apart name (v ∷ vs) b h =
    let a = h.0 in ((λ e. cc (a.free, ap is_built_in_env_name e)), apart name vs b h.1)

distinct-append :
    (vs ws : List EnvVariable)
    → IsDistinct (λ v. v.name) vs
    → All (λ v. is_built_in_env_name v.name ≡ true) vs
    → IsDistinct (λ v. v.name) ws
    → All IsAllowed ws
    → IsDistinct (λ v. v.name) (vs ++ ws)
distinct-append [] ws d r e a = e
distinct-append (v ∷ vs) ws d r e a =
    (All-append _ vs ws d.0 (apart v.name ws r.0 a), distinct-append vs ws d.1 r.1 e a)

environment_variables_lem :
    (c : Config) (e : Environment)
    → environment_for_lab c.lab ≡ found e
    → environment_variables c ≡ e.env ++ c.custom_env
unfolding environment_variables
environment_variables_lem c e h = rw (h, environment_variables)

-- The variables of a configuration that was read from a document whose variables have different
-- names are the built-in ones of its lab followed by the custom ones, and no name occurs twice.
pub environment_variables-IsDistinct :
    (path : String) (d : Document) (c : Config)
    → validate path d ≡ ok c
    → IsDistinct (λ v. v.name) d.env
    → (e : Environment) × (environment_for_lab c.lab ≡ found e)
      × (environment_variables c ≡ e.env ++ c.custom_env)
      × IsDistinct (λ v. v.name) (environment_variables c)
environment_variables-IsDistinct path d c h distinct =
    let a = validate-IsAccepted path d c h in
    elim (environment_for_lab_total c.lab) [
      | inl (missing, x) ↦ absurd (cc (missing, a.canonical))
      | inr (e, f, entry) ↦
          let sorted = Permᴰ.symm (sort-perm (λ v. v.name) d.env) in
          let same = environment_variables_lem c e f in
          (
            e,
            f,
            same,
            subst (IsDistinct (λ v. v.name)) (sym same) (
                distinct-append e.env c.custom_env entry.names entry.all_reserved
                  (subst (IsDistinct (λ v. v.name)) (sym a.custom_env)
                    (Permᴰ-IsDistinct _ sorted distinct))
                  (subst (All IsAllowed) (sym a.custom_env) (Permᴰ-All _ sorted a.allowed))),
          )
    ]
