-- ===== src/Errors.antt =====
-- Go's error values, as internal/cluster/service.go, internal/lab/service.go and internal/cli build
-- and inspect them, and the exit code of internal/cli/errors.go. An error's text is its format
-- string: the values that `fmt.Errorf` puts in are not kept, and `%v` keeps no cause.
pub mod ExitCode
use course_infra.Base.{
  ◌≡◌, ◌⊎◌, inl, inr, refl, ℕ, String, Bool, true, false, Option, none, some, ◌||◌, if◌then◌else◌,
  arith, ap,
}

-- The values that `errors.Is` is asked about: `ErrPrerequisite`, `ErrConflict`, `errCanceled`, the
-- two of package context, `os.ErrNotExist`, and the reasons NotFound and Conflict of an API error.
pub data Sentinel : Type 0 where
  prerequisite conflict canceled context_canceled deadline_exceeded : Sentinel
  not_exist api_not_found api_conflict : Sentinel

-- `ConfigError` of internal/environment/config.go, without its cause.
pub record Diagnostic : Type 0 where
  pub path : String
  pub field : String
  pub expected : String
  pub actual : String
  pub line : ℕ
  pub column : ℕ

-- `new` is an error with no cause, of the program or of a library; `wrap` is one `%w`, `wrap_two`
-- two. `exit_error` is `exitError` of internal/cli/errors.go.
pub data GoError : Type 0 where
  sentinel : Sentinel → GoError
  new : String → GoError
  wrap : String → GoError → GoError
  wrap_two : String → GoError → GoError → GoError
  config_error : Diagnostic → GoError
  config_error_of : Diagnostic → GoError → GoError
  exit_error : ℕ → GoError → GoError

-- A value and a nil error, or an error.
pub data Result {ℓ} (A : Type ℓ) : Type ℓ where
  ok : A → Result A
  err : GoError → Result A

pub Result-cases {ℓ} :
    {A : Type ℓ} (r : Result A) → ((a : A) × (r ≡ ok a)) ⊎ ((e : GoError) × (r ≡ err e))
Result-cases (ok a) = inl (a, refl)
Result-cases (err e) = inr (e, refl)

infixl 5 ◌>>=◌ ◌>>◌
abbrev pub ◌>>=◌ {κ ℓ} : {B : Type ℓ} {A : Type κ} → Result A → (A → Result B) → Result B
r >>= next = elim r [ err failure ↦ err failure | ok value ↦ next value ]

abbrev pub ◌>>◌ {ℓ} : {A : Type ℓ} → Result (Unit {0}) → Result A → Result A
first >> second = first >>= λ _. second

abbrev value_or {ℓ} : {A : Type ℓ} → A → Result A → A
value_or fallback (ok a) = a
value_or fallback (err e) = fallback

pub ok-injective {ℓ} : {A : Type ℓ} {a b : A} → ok a ≡ ok b → a ≡ b
ok-injective {a = a} h = ap (value_or a) h

-- A chain that succeeds has succeeded in both parts.
pub >>=-ok {κ ℓ} :
    {A : Type κ} {B : Type ℓ} (r : Result A) (next : A → Result B) (b : B)
    → (r >>= next) ≡ ok b
    → (a : A) × (r ≡ ok a) × (next a ≡ ok b)
>>=-ok (ok a) next b h = (a, refl, h)
>>=-ok (err e) next b h = absurd (ground arith)

abbrev pub same_sentinel : Sentinel → Sentinel → Bool
same_sentinel prerequisite prerequisite = true
same_sentinel conflict conflict = true
same_sentinel canceled canceled = true
same_sentinel context_canceled context_canceled = true
same_sentinel deadline_exceeded deadline_exceeded = true
same_sentinel not_exist not_exist = true
same_sentinel api_not_found api_not_found = true
same_sentinel api_conflict api_conflict = true
same_sentinel _ _ = false

-- `errors.Is`
abbrev pub is : GoError → Sentinel → Bool
is (sentinel s) t = same_sentinel s t
is (new text) t = false
is (wrap text e) t = is e t
is (wrap_two text d e) t = is d t || is e t
is (config_error d) t = false
is (config_error_of d e) t = is e t
is (exit_error code e) t = is e t

abbrev pub or_first {ℓ} : {A : Type ℓ} → Option A → Option A → Option A
or_first none o = o
or_first (some a) o = some a

-- `errors.As` for `*exitError`: the code of the first one found, parents first.
abbrev pub as_exit_error : GoError → Option ℕ
as_exit_error (sentinel s) = none
as_exit_error (new text) = none
as_exit_error (wrap text e) = as_exit_error e
as_exit_error (wrap_two text d e) = or_first (as_exit_error d) (as_exit_error e)
as_exit_error (config_error d) = none
as_exit_error (config_error_of d e) = as_exit_error e
as_exit_error (exit_error code e) = some code

-- `errors.As` for `*environment.ConfigError`: whether one is found.
abbrev pub as_config_error : GoError → Bool
as_config_error (sentinel s) = false
as_config_error (new text) = false
as_config_error (wrap text e) = as_config_error e
as_config_error (wrap_two text d e) = as_config_error d || as_config_error e
as_config_error (config_error d) = true
as_config_error (config_error_of d e) = true
as_config_error (exit_error code e) = as_config_error e

-- `ExitCode`; `none` is the nil error.
unfoldable pub exit_code : Option GoError → ℕ
exit_code none = 0
exit_code (some e) = elim (as_exit_error e) [
  | some code ↦ code
  | none ↦
      if as_config_error e
      then 2
      else if is e canceled || is e context_canceled
      then 130
      else if is e deadline_exceeded
      then 3
      else if is e prerequisite
      then 3
      else if is e conflict
      then 4
      else 1
]
