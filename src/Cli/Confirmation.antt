-- ===== src/Cli/Confirmation.antt =====
-- internal/cli/commands.go: what must have happened before `cluster stop` and `environment reset` delete.
use course_infra.Base.{
  ◌≡◌, refl, sym, subst, String, Bool, true, Option, none, some, List, [], ◌∷◌, ◌⊎◌, inl, inr,
  arith, Bool-cases, not, str_eq,
}
use course_infra.Text.{is_blank}
use course_infra.Errors.{GoError, Result, Result-cases, ok, err, is, prerequisite}
use course_infra.Effects.{Exec, call, pure, fail, refuse, ◌>>=◌, ◌>>◌, either}
use course_infra.Effects.Keeps.{
  Keeps, Keeps-call, Keeps-pure, Keeps-attempt, Keeps-if, Keeps-map_err, Keeps-refuse, Keeps-bind,
  keeps_rules,
}
use course_infra.Sorting.{sort}
use course_infra.Config.{itself}
use course_infra.Lab.Operations.{namespace_of}
use course_infra.Cli.{
  Call, Dependencies, cluster_inspect, cluster_stop, working_directory, environment_status,
  environment_reset, parse_config, print, read_line, is_exact_yes,
}
use course_infra.Cli.Commands.{
  say, inspect_cluster, stop_cluster, check_answer, confirm, announce, stop_inspected,
  stop_uninspected, stop_command, environment_working_directory, environment_of, reset_name,
  reset_command,
}

check_answer-trace :
    (answer : String × Option GoError) (t : List Call) → (check_answer answer t).1 ≡ t
unfolding check_answer pure fail
check_answer-trace (answer, none) t = elim (Bool-cases (is_exact_yes answer)) [
  | inl e ↦ rw (check_answer, e) refl
  | inr e ↦ rw (check_answer, e) refl
]
check_answer-trace (answer, some x) t = elim (Bool-cases (is_blank answer)) [
  | inl e ↦ rw (check_answer, e) refl
  | inr e ↦ elim (Bool-cases (is_exact_yes answer)) [
    | inl f ↦ rw (check_answer, e, f) refl
    | inr f ↦ rw (check_answer, e, f) refl
  ]
]

check_answer-ok :
    (answer : String × Option GoError) (t : List Call)
    → (check_answer answer t).0 ≡ ok tt
    → is_exact_yes answer.0 ≡ true
unfolding check_answer pure fail
check_answer-ok (answer, none) t h = elim (Bool-cases (is_exact_yes answer)) [
  | inl e ↦ e
  | inr e ↦ absurd (ground (arith, rw (check_answer, e) at h))
]
check_answer-ok (answer, some x) t h = elim (Bool-cases (is_exact_yes answer)) [
  | inl e ↦ e
  | inr e ↦ elim (Bool-cases (is_blank answer)) [
    | inl f ↦ absurd (ground (arith, rw (check_answer, f) at h))
    | inr f ↦ absurd (ground (arith, rw (check_answer, f, e) at h))
  ]
]

module _ (D : Dependencies) (assume_yes : Bool) where
  -- The user has agreed: by the flag, or on a terminal by exactly `yes` in the last call.
  abbrev pub IsApproved : List Call → Type 0
  IsApproved t =
      (assume_yes ≡ true)
      ⊎ ((D.is_terminal ≡ true)
          × ((u : List Call) × (t ≡ read_line ∷ u) × (is_exact_yes (D.read_line u).0 ≡ true)))

  -- The last call was an inspection that failed for want of a prerequisite.
  abbrev pub IsMissing : List Call → Type 0
  IsMissing t =
      (u : List Call) × (e : GoError) × (t ≡ cluster_inspect ∷ u)
      × (D.cluster_inspect u ≡ err e)
      × (is e prerequisite ≡ true)

  -- Every deletion of the history was approved directly before; a cluster may also be stopped, for the
  -- case that it has no environments, directly after such an inspection.
  abbrev pub IsConfirmed : List Call → Type 0
  IsConfirmed [] = Unit
  IsConfirmed (cluster_stop namespaces ∷ t) =
      (IsApproved t ⊎ ((namespaces ≡ []) × IsMissing t)) × IsConfirmed t
  IsConfirmed (environment_reset cwd ∷ t) = IsApproved t × IsConfirmed t
  IsConfirmed (e ∷ t) = IsConfirmed t

  say-IsConfirmed : (text : String) → Keeps IsConfirmed (say D text)
  unfolding say
  say-IsConfirmed text = Keeps-call (print text) _ (λ t h. h)

  -- A confirmation that succeeds approves.
  confirm-IsApproved :
      (text : String) (t : List Call)
      → (confirm D assume_yes text t).0 ≡ ok tt
      → IsApproved (confirm D assume_yes text t).1
  unfolding confirm ◌>>=◌ refuse
  confirm-IsApproved text t h = elim (Bool-cases assume_yes) [
    | inl e ↦ inl e
    | inr e ↦ elim (Bool-cases D.is_terminal) [
      | inr f ↦ absurd (ground (arith, rw (confirm, e, f) at h))
      | inl f ↦ elim (Result-cases (D.print t "Type yes to continue: ")) [
        | inr (x, g) ↦ absurd (ground (arith, rw (confirm, e, f, g) at h))
        | inl (_, g) ↦
            let u = print "Type yes to continue: " ∷ t in
            inr (
              f,
              (
                u,
                rw (confirm, e, f, g) (check_answer-trace (D.read_line u) (read_line ∷ u)),
                check_answer-ok (D.read_line u) (read_line ∷ u) (rw (confirm, e, f, g) at h),
              ),
            )
      ]
    ]
  ]

  answer-IsConfirmed : Keeps IsConfirmed (call read_line (λ t. ok (D.read_line t)))
  answer-IsConfirmed = Keeps-call read_line _ (λ t h. h)

  check_answer-IsConfirmed :
      (answer : String × Option GoError) → Keeps IsConfirmed (check_answer answer)
  check_answer-IsConfirmed answer = record {
    at = λ t h. subst IsConfirmed (sym (check_answer-trace answer t)) h;
  }

  confirm-IsConfirmed : (text : String) → Keeps IsConfirmed (confirm D assume_yes text)
  unfolding confirm
  confirm-IsConfirmed text =
      search (keeps_rules, say-IsConfirmed, answer-IsConfirmed, check_answer-IsConfirmed) depth 20

  announce-IsConfirmed : (namespaces : List String) → Keeps IsConfirmed (announce D namespaces)
  unfolding announce
  announce-IsConfirmed namespaces = search (keeps_rules, say-IsConfirmed) depth 20

  -- What comes after a confirmation may delete.
  after_confirm :
      (text : String) (delete : Exec Call (Unit {0}))
      → ((t : List Call) → IsApproved t → IsConfirmed t → IsConfirmed (delete t).1)
      → Keeps IsConfirmed (confirm D assume_yes text >> delete)
  unfolding ◌>>=◌
  after_confirm text delete k = record {
    at = λ t h. elim (Result-cases (confirm D assume_yes text t).0) [
      | inl (_, e) ↦ rw e (
          k (confirm D assume_yes text t).1 (confirm-IsApproved text t e)
            ((confirm-IsConfirmed text).at t h))
      | inr (x, e) ↦ rw e ((confirm-IsConfirmed text).at t h)
    ];
  }

  -- A call and the message after it.
  then_say :
      (e : Call) (answer : List Call → Result (Unit {0})) (text : String) (t : List Call)
      → IsConfirmed (e ∷ t)
      → IsConfirmed ((call e answer >> say D text) t).1
  unfolding ◌>>=◌
  then_say e answer text t h = elim (Result-cases (answer t)) [
    | inl (_, f) ↦ rw f ((say-IsConfirmed text).at (e ∷ t) h)
    | inr (x, f) ↦ rw f h
  ]

  stop_inspected-IsConfirmed :
      (namespaces : List String) → Keeps IsConfirmed (stop_inspected D assume_yes namespaces)
  unfolding stop_inspected stop_cluster
  stop_inspected-IsConfirmed namespaces = Keeps-bind _ _ (announce-IsConfirmed namespaces) (λ _.
      after_confirm "cluster stop requires --yes when stdin is not a terminal" _
        (λ t approved h. then_say (cluster_stop namespaces) _ _ t (inl approved, h)))

  stop_uninspected-IsConfirmed :
      (e : GoError) (t : List Call)
      → D.cluster_inspect t ≡ err e
      → IsConfirmed t
      → IsConfirmed (stop_uninspected D e (cluster_inspect ∷ t)).1
  unfolding stop_uninspected stop_cluster fail
  stop_uninspected-IsConfirmed e t f h = elim (Bool-cases (is e prerequisite)) [
    | inl g ↦
        rw g
          (then_say (cluster_stop []) _ _ (cluster_inspect ∷ t) (inr (refl, (t, e, refl, f, g)), h))
    | inr g ↦ rw g h
  ]

  stop_command-IsConfirmed : Keeps IsConfirmed (stop_command D assume_yes)
  unfolding stop_command inspect_cluster ◌>>=◌ either
  stop_command-IsConfirmed = record {
    at = λ t h. elim (Result-cases (D.cluster_inspect t)) [
      | inl (status, e) ↦ rw e (
          (stop_inspected-IsConfirmed (sort itself status.known_namespaces)).at
            (cluster_inspect ∷ t) h)
      | inr (x, e) ↦ rw e (stop_uninspected-IsConfirmed x t e h)
    ];
  }

  directory-IsConfirmed : Keeps IsConfirmed (environment_working_directory D)
  unfolding environment_working_directory
  directory-IsConfirmed =
      Keeps-bind _ _ (Keeps-refuse IsConfirmed (not D.has_environment) _)
        (λ _. Keeps-map_err _ _ (Keeps-call working_directory _ (λ t h. h)))

  environment_of-IsConfirmed : (cwd : String) → Keeps IsConfirmed (environment_of D cwd)
  unfolding environment_of
  environment_of-IsConfirmed cwd = Keeps-call (environment_status cwd) _ (λ t h. h)

  reset_name-IsConfirmed : (cwd : String) → Keeps IsConfirmed (reset_name D cwd)
  unfolding reset_name
  reset_name-IsConfirmed cwd =
      Keeps-bind _ _ (Keeps-attempt _ (environment_of-IsConfirmed cwd)) (λ current.
        Keeps-bind _ _ (search (keeps_rules) depth 20) (λ name.
          Keeps-if (str_eq name "") _ _
            (λ _.
              Keeps-bind _ _ (Keeps-call (parse_config cwd) _ (λ t h. h))
                (λ config. Keeps-pure (namespace_of config.lab)))
            (λ _. Keeps-pure name)))

  reset_command-IsConfirmed : Keeps IsConfirmed (reset_command D assume_yes)
  unfolding reset_command
  reset_command-IsConfirmed = Keeps-bind _ _ directory-IsConfirmed (λ cwd.
      Keeps-bind _ _ (reset_name-IsConfirmed cwd) (λ name. Keeps-bind _ _ (say-IsConfirmed _) (λ _.
        after_confirm "environment reset requires --yes when stdin is not a terminal" _
          (λ t approved h. then_say (environment_reset cwd) _ _ t (approved, h)))))

  -- Whatever the dependencies answer, in `cluster stop` and `environment reset` a deletion is called
  -- only where the flag `--yes` is given or, on a terminal, the line read directly before is exactly
  -- `yes`; the one exception is a cluster whose inspection directly before failed for want of a
  -- prerequisite, which is stopped without asking, for the case that it has no environments.
  pub commands-IsConfirmed :
      (t : List Call)
      → IsConfirmed t
      → IsConfirmed (stop_command D assume_yes t).1 × IsConfirmed (reset_command D assume_yes t).1
  commands-IsConfirmed t h = (stop_command-IsConfirmed.at t h, reset_command-IsConfirmed.at t h)
