-- ===== src/Config.antt =====
-- internal/environment/config.go: the public environment.toml contract. The TOML decoder is a
-- parameter; what it decodes is a `Document`. In a diagnostic the actual value is not quoted.
pub mod Contract
pub mod Checks
use course_infra.Base.{
  ◌≡◌, refl, ◌⊎◌, inl, inr, ℕ, suc, String, Bool, true, false, Option, none, some, List, [], ◌∷◌,
  ◌++◌, ℤ, pos, negsuc,
}
use course_infra.Base.{str_eq, leb, ◌==◌, eqb, ◌&&◌, ◌||◌, not, if◌then◌else◌}
use course_infra.Text.{◌<>◌, codes, itoa}
use course_infra.Errors.{
  Diagnostic, GoError, new, config_error, config_error_of, Result, ok, err, ◌>>=◌, ◌>>◌,
}
use course_infra.Sorting.{sort}
use course_infra.Catalog.{Component, components, is_component}
use course_infra.Catalog.Environment.{
  EnvVariable, environment_for_lab, found, absent, panic, is_built_in_env_name,
}

-- `SchemaVersion`
abbrev pub schema_version_1 : ℤ
schema_version_1 = pos 1

-- `Config`
pub record Config : Type 0 where
  pub schema_version : ℤ
  pub lab : ℕ
  pub components : List Component
  pub custom_env : List EnvVariable

-- `document`; the map `Env` is listed in the order that a `range` over it takes.
pub record Document : Type 0 where
  pub schema_version : ℤ
  pub lab : ℤ
  pub components : List String
  pub env : List EnvVariable

-- `EnvironmentVariables`
unfoldable pub environment_variables : Config → List EnvVariable
environment_variables c = elim (environment_for_lab c.lab) [
  | found e ↦ e.env ++ c.custom_env
  | absent ↦ []
  | panic text ↦ []
]

-- `fmt.Sprint` of an int.
abbrev pub sprint : ℤ → String
unfolding itoa
sprint (pos n) = itoa n
sprint (negsuc n) = "-" <> itoa (suc n)

-- `validationError`
abbrev pub validation_error : String → String → String → String → GoError
validation_error path field expected actual = config_error (record {
  path = path;
  field = field;
  expected = expected;
  actual = actual;
  line = 0;
  column = 0;
})

-- A map with int keys has no entry for a negative number.
unfoldable pub components_of : ℤ → Option (List Component)
components_of (pos lab) = components lab
components_of (negsuc n) = none

abbrev pub contains : String → List String → Bool
contains name [] = false
contains name (other ∷ rest) = str_eq other name || contains name rest

-- The loop over `decoded.Components`.
unfoldable pub check_components : String → ℕ → List String → List String → Result (Unit {0})
check_components path index seen [] = ok tt
check_components path index seen (name ∷ names) =
    let field = "components[" <> itoa index <> "]" in
    let rest = check_components path (suc index) (name ∷ seen) names in
    if not (is_component name)
    then err (validation_error path field "one of postgres, observability, push, redpanda" name)
    else if contains name seen
    then err (
        validation_error path field "a component that is not already listed" ("duplicate " <> name))
    else rest

abbrev is_letter : ℕ → Bool
is_letter c = (leb b'A' c && leb c b'Z') || (leb b'a' c && leb c b'z') || c == b'_'

abbrev all_name_codes : List ℕ → Bool
all_name_codes [] = true
all_name_codes (c ∷ cs) = (is_letter c || (leb b'0' c && leb c b'9')) && all_name_codes cs

abbrev matches_codes : List ℕ → Bool
matches_codes [] = false
matches_codes (c ∷ cs) = is_letter c && all_name_codes cs

-- `envNamePattern.MatchString`, for `^[A-Za-z_][A-Za-z0-9_]*$`.
unfoldable pub matches_env_name : String → Bool
matches_env_name name = matches_codes (codes name)

abbrev any_control : List ℕ → Bool
any_control [] = false
any_control (c ∷ cs) = c == 0 || c == b'\r' || c == b'\n' || any_control cs

-- `strings.ContainsAny(value, "\x00\r\n")`
unfoldable pub contains_control : String → Bool
contains_control value = any_control (codes value)

-- The loop over `decoded.Env`; the result is `customEnv` before it is sorted.
unfoldable pub check_env : String → List EnvVariable → Result (List EnvVariable)
check_env path [] = ok []
check_env path (v ∷ vs) =
    let field = "env." <> v.name in
    let rest = check_env path vs in
    if not (matches_env_name v.name)
    then err (validation_error path field "a name matching [A-Za-z_][A-Za-z0-9_]*" v.name)
    else if is_built_in_env_name v.name
    then err (
        validation_error path field "a name that does not override a built-in variable"
          ("reserved name " <> v.name))
    else if contains_control v.value
    then err (validation_error path field "a literal single-line string without NUL" v.value)
    else (rest >>= λ custom. ok (v ∷ custom))

abbrev pub texts_equal : List String → List String → Bool
texts_equal [] [] = true
texts_equal (s ∷ ss) (t ∷ ts) = str_eq s t && texts_equal ss ts
texts_equal [] (t ∷ ts) = false
texts_equal (s ∷ ss) [] = false

abbrev pub is_empty {ℓ} : {A : Type ℓ} → List A → Bool
is_empty [] = true
is_empty (a ∷ l) = false

abbrev pub itself : String → String
itself s = s

-- The last check of `Parse`, and its result.
unfoldable pub finish : String → Document → ℕ → List Component → List EnvVariable → Result Config
finish path d lab expected custom =
    if texts_equal (sort itself d.components) (sort itself expected)
    then ok (record {
      schema_version = d.schema_version;
      lab = lab;
      components = expected;
      custom_env = sort (λ v. v.name) custom;
    })
    else err (validation_error path "components" "set %q for lab %d" "set %q")

abbrev pub lab_number : ℤ → ℕ
lab_number (pos lab) = lab
lab_number (negsuc n) = 0

-- `Parse` after the document is decoded.
unfoldable pub validate : String → Document → Result Config
validate path d =
    if not (eqb d.schema_version schema_version_1)
    then err (validation_error path "schema_version" "integer 1" (sprint d.schema_version))
    else elim (components_of d.lab) [
      | none ↦ err (validation_error path "lab" "an integer from 1 through 5" (sprint d.lab))
      | some expected ↦
          if is_empty d.components
          then err (validation_error path "components" "a non-empty array" "empty array")
          else do
            check_components path 0 [] d.components
            custom ← check_env path d.env
            finish path d (lab_number d.lab) expected custom
    ]

-- What the TOML decoder says of a failure: an unknown field or a value of the wrong type, with the
-- key (empty for the document) and the position, or anything else.
pub data DecodeFailure : Type 0 where
  strict : String → ℕ → ℕ → DecodeFailure
  mistyped : String → ℕ → ℕ → GoError → DecodeFailure
  other : GoError → DecodeFailure

-- `keyName`
abbrev key_name : String → String
key_name key = if str_eq key "" then "<document>" else key

-- `expectedType`
abbrev expected_type : String → String
expected_type field =
    if str_eq field "schema_version" || str_eq field "lab"
    then "an integer"
    else if str_eq field "components"
    then "an array of strings"
    else "valid TOML"

-- `decodeError`
unfoldable pub decode_error : String → DecodeFailure → GoError
decode_error path (strict key line column) =
    config_error_of
      (record {
        path = path;
        field = key_name key;
        expected = "only schema_version, lab, components, and env fields";
        actual = "";
        line = line;
        column = column;
      })
      (new "unknown field")
decode_error path (mistyped key line column e) =
    config_error_of
      (record {
        path = path;
        field = key_name key;
        expected = expected_type (key_name key);
        actual = "";
        line = line;
        column = column;
      })
      e
decode_error path (other e) =
    config_error_of
      (record {
        path = path;
        field = "<document>";
        expected = "valid TOML";
        actual = "";
        line = 0;
        column = 0;
      })
      e

-- What the decoder returns for the bytes of a file.
pub data Decoded : Type 0 where
  document : Document → Decoded
  failed : DecodeFailure → Decoded

pub Decoded-cases :
    (r : Decoded) → ((d : Document) × (r ≡ document d)) ⊎ ((f : DecodeFailure) × (r ≡ failed f))
Decoded-cases (document d) = inl (d, refl)
Decoded-cases (failed f) = inr (f, refl)

module _ (decode : List ℕ → Decoded) where
  -- `Parse`
  unfoldable pub parse : String → List ℕ → Result Config
  unfolding validate decode_error
  parse path bytes = elim (decode bytes) [
    | document d ↦ validate path d
    | failed f ↦ err (decode_error path f)
  ]

  -- `ParseFile`, after `os.ReadFile`.
  unfoldable pub parse_file : String → Result (List ℕ) → Result Config
  unfolding parse
  parse_file path (ok bytes) = parse path bytes
  parse_file path (err e) = err (
      config_error_of
        (record {
          path = path;
          field = "<file>";
          expected = "a readable environment.toml";
          actual = "";
          line = 0;
          column = 0;
        })
        e)
