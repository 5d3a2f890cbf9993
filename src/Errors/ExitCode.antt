-- ===== src/Errors/ExitCode.antt =====
-- internal/cli/errors.go: which exit code an error gets.
use course_infra.Base.{
  ℕ, String, ◌≡◌, ◌≢◌, refl, Option, none, some, Option-cases, List, [], ◌∷◌, arith, inl, inr, ◌⊎◌,
  ◌||◌, if◌then◌else◌,
}
use course_infra.Errors.{
  prerequisite, canceled, context_canceled, GoError, sentinel, new, wrap, wrap_two, config_error,
  config_error_of, exit_error, is, or_first, as_exit_error, as_config_error, exit_code,
}

-- The codes that `exitError` values carry in the program.
abbrev pub IsPublic : GoError → Type 0
IsPublic (sentinel s) = Unit
IsPublic (new text) = Unit
IsPublic (wrap text e) = IsPublic e
IsPublic (wrap_two text d e) = IsPublic d × IsPublic e
IsPublic (config_error d) = Unit
IsPublic (config_error_of d e) = IsPublic e
IsPublic (exit_error code e) = code ≢ 0

or_first-cases {ℓ} :
    {A : Type ℓ} (o p : Option A) {a : A} → or_first o p ≡ some a → (o ≡ some a) ⊎ (p ≡ some a)
or_first-cases none p h = inr h
or_first-cases (some b) p h = inl h

as_exit_error-IsPublic :
    (e : GoError) {code : ℕ} → IsPublic e → as_exit_error e ≡ some code → code ≢ 0
as_exit_error-IsPublic (sentinel s) h p = cc
as_exit_error-IsPublic (new text) h p = cc
as_exit_error-IsPublic (wrap text e) h p = as_exit_error-IsPublic e h p
as_exit_error-IsPublic (wrap_two text d e) h p =
    elim (or_first-cases (as_exit_error d) (as_exit_error e) p) [
      | inl q ↦ as_exit_error-IsPublic d h.0 q
      | inr q ↦ as_exit_error-IsPublic e h.1 q
    ]
as_exit_error-IsPublic (config_error d) h p = cc
as_exit_error-IsPublic (config_error_of d e) h p = as_exit_error-IsPublic e h p
as_exit_error-IsPublic (exit_error c e) h p = ground arith

-- An operation that failed never exits with 0: where each `exitError` inside the error, at any
-- depth, carries a code other than 0, so is the exit code, and it is 0 for the nil error.
pub exit_code-ne-zero : (e : GoError) → IsPublic e → (exit_code (some e) ≢ 0) × (exit_code none ≡ 0)
unfolding exit_code
exit_code-ne-zero e h = (
  elim (Option-cases (as_exit_error e)) [
    | inl n ↦ rw (n, exit_code) (ground arith)
    | inr (code, p) ↦ rw (p, exit_code) (as_exit_error-IsPublic e h p)
  ],
  refl,
)

-- Contexts that are put round an error, outermost first.
abbrev pub wrap_all : List String → GoError → GoError
wrap_all [] e = e
wrap_all (text ∷ texts) e = wrap text (wrap_all texts e)

-- An error that is marked as a missing prerequisite together with its cause, under any contexts,
-- has the exit code of the cause where the cause is a usage error, a configuration error or a
-- cancellation, and 3 otherwise, also where the cause is a conflict.
pub exit_code-prerequisite :
    (contexts : List String) (text : String) (cause : GoError)
    → exit_code (some (wrap_all contexts (wrap_two text (sentinel prerequisite) cause)))
      ≡ (elim (as_exit_error cause) [
        | some code ↦ code
        | none ↦
            if as_config_error cause
            then 2
            else if is cause canceled || is cause context_canceled
            then 130
            else 3
      ])
unfolding exit_code
exit_code-prerequisite [] text cause = ground arith
exit_code-prerequisite (_ ∷ contexts) text cause = exit_code-prerequisite contexts text cause
