-- ===== src/Cli/Commands.antt =====
-- internal/cli/commands.go: the commands on the cluster and on an environment.
use course_infra.Base.{
  String, Bool, Option, none, some, List, [], length, str_eq, ◌&&◌, not, map, if◌then◌else◌,
}
use course_infra.Text.{◌<>◌, itoa, padded, is_blank}
use course_infra.Errors.{GoError, ok, new, wrap, sentinel, canceled, prerequisite, exit_error, is}
use course_infra.Effects.{
  Exec, pure, fail, call, map_err, attempt, ◌>>=◌, ◌>>◌, either, refuse, for_each,
}
use course_infra.Sorting.{sort}
use course_infra.Lab.Operations.{namespace_of}
use course_infra.Config.{itself, is_empty, sprint}
use course_infra.Cluster.{cluster_name}
use course_infra.Cluster.Lifecycle.{Status}
use course_infra.Lab.{RuntimeStatus, ComponentStatus}
use course_infra.Cli.{
  Call, Dependencies, cluster_start, cluster_inspect, cluster_stop, resource_warnings,
  working_directory, configured_lab, environment_start, environment_stop, environment_status,
  environment_reset, environment_list, parse_config, print, read_line, is_exact_yes, pad_right,
  join,
}

-- `readyWord`
abbrev pub ready_word : Bool → String
ready_word ready = if ready then "ready" else "not ready"

-- The answer to a question, by what was read.
unfoldable pub check_answer : String × Option GoError → Exec Call (Unit {0})
unfolding is_exact_yes
check_answer (answer, none) = if is_exact_yes answer then pure tt else fail (sentinel canceled)
check_answer (answer, some e) =
    if is_blank answer
    then fail (wrap "read confirmation: %w" e)
    else if is_exact_yes answer
    then pure tt
    else fail (sentinel canceled)

module _ (D : Dependencies) where
  unfoldable pub say : String → Exec Call (Unit {0})
  say text = call (print text) (λ t. D.print t text)

  unfoldable pub inspect_cluster : Exec Call Status
  inspect_cluster = call cluster_inspect (λ t. D.cluster_inspect t)

  unfoldable pub stop_cluster : List String → Exec Call (Unit {0})
  stop_cluster namespaces = call (cluster_stop namespaces) (λ t. D.cluster_stop t namespaces)

  -- `printClusterStatus`
  unfoldable pub print_cluster_status : Status → Exec Call (Unit {0})
  unfolding say itoa
  print_cluster_status status = say (
      "Cluster: "
      <> cluster_name
      <> "\nStatus:  "
      <> ready_word (status.ready && status.registry_ready)
      <> "\nKind:    "
      <> status.kind_version
      <> "\nKubernetes: "
      <> status.kubernetes
      <> "\nRegistry: localhost:5001 ("
      <> ready_word status.registry_ready
      <> ")\nIdentity: "
      <> status.cluster_id
      <> "\nPort mappings: "
      <> status.kind_config_hash
      <> "\nEnvironments: "
      <> itoa (length status.known_namespaces)
      <> " known, "
      <> itoa (length status.running_namespaces)
      <> " running\n")

  -- The loop of `printEnvironmentStatus`.
  unfoldable pub print_components : List ComponentStatus → Exec Call (Unit {0})
  unfolding say
  print_components components = for_each components (λ component. say (
      component.name
      <> ": desired="
      <> sprint component.desired
      <> " ready="
      <> sprint component.ready
      <> " image="
      <> component.image_digest
      <> "\n"))

  -- `printEnvironmentStatus`
  unfoldable pub print_environment_status : RuntimeStatus → Exec Call (Unit {0})
  unfolding say print_components padded
  print_environment_status status = do
    say (
        "Environment: "
        <> status.namespace
        <> "\nLab:         "
        <> padded status.lab
        <> "\nStatus:      "
        <> status.state
        <> "\n")
    print_components status.components

  -- `cluster start`; the progress session passes the error on.
  unfoldable pub start_command : Exec Call (Unit {0})
  unfolding print_cluster_status say
  start_command = do
    status ← map_err (wrap "%w") (call cluster_start (λ t. D.cluster_start t))
    print_cluster_status status
    say "\nNext: cd <lab-directory> && tripgoctl environment start\n"

  -- `cluster status`
  unfoldable pub status_command : Exec Call (Unit {0})
  unfolding inspect_cluster print_cluster_status
  status_command = inspect_cluster >>= print_cluster_status

  -- The confirmation of `cluster stop` and `environment reset`.
  unfoldable pub confirm : Bool → String → Exec Call (Unit {0})
  unfolding say check_answer
  confirm assume_yes text = if assume_yes then pure tt else (do
    refuse (not D.is_terminal) (exit_error 2 (new text))
    say "Type yes to continue: "
    answer ← call read_line (λ t. ok (D.read_line t))
    check_answer answer)

  -- The part of `cluster stop` that lists what is deleted.
  unfoldable pub announce : List String → Exec Call (Unit {0})
  unfolding say
  announce namespaces = do
    say "Cluster tripgo-local and its local registry will be deleted.\n"
    if is_empty namespaces
        then say "Environments: none detected\n"
        else (do say "Environments:\n"; for_each namespaces (λ name. say ("  - " <> name <> "\n")))
    say "Warning: all environment PVC data and locally built images will be deleted.\n"

  -- `cluster stop` for a cluster that was inspected.
  unfoldable pub stop_inspected : Bool → List String → Exec Call (Unit {0})
  unfolding announce confirm stop_cluster
  stop_inspected assume_yes namespaces = do
    announce namespaces
    confirm assume_yes "cluster stop requires --yes when stdin is not a terminal"
    stop_cluster namespaces
    say "Cluster tripgo-local and its local registry were deleted.\n"

  -- `cluster stop` where the inspection failed.
  unfoldable pub stop_uninspected : GoError → Exec Call (Unit {0})
  unfolding stop_cluster say
  stop_uninspected e =
      if is e prerequisite
      then (do stop_cluster []; say "Cluster tripgo-local is already absent.\n")
      else fail e

  -- `cluster stop`
  unfoldable pub stop_command : Bool → Exec Call (Unit {0})
  unfolding inspect_cluster stop_inspected stop_uninspected
  stop_command assume_yes = do
    current ← attempt inspect_cluster
    either current (λ status. stop_inspected assume_yes (sort itself status.known_namespaces))
        stop_uninspected

  -- `environmentWorkingDirectory`
  unfoldable pub environment_working_directory : Exec Call String
  environment_working_directory = do
    refuse (not D.has_environment) (new "environment lifecycle dependency is required")
    map_err (wrap "resolve working directory: %w")
        (call working_directory (λ t. D.working_directory t))

  unfoldable pub environment_of : String → Exec Call RuntimeStatus
  environment_of cwd = call (environment_status cwd) (λ t. D.environment_status t cwd)

  -- `environment status`
  unfoldable pub environment_status_command : Exec Call (Unit {0})
  unfolding environment_working_directory environment_of print_environment_status
  environment_status_command = do
    cwd ← environment_working_directory
    current ← environment_of cwd
    print_environment_status current

  -- `environment stop`
  unfoldable pub environment_stop_command : Exec Call (Unit {0})
  unfolding environment_working_directory print_environment_status
  environment_stop_command = do
    cwd ← environment_working_directory
    current ← call (environment_stop cwd D.version) (λ t. D.environment_stop t cwd D.version)
    print_environment_status current

  -- The name of the environment that `environment reset` deletes.
  unfoldable pub reset_name : String → Exec Call String
  unfolding environment_of namespace_of
  reset_name cwd = do
    current ← attempt (environment_of cwd)
    name ←
        either current (λ status. pure status.namespace)
          (λ e. if is e prerequisite then pure "" else fail e)
    if str_eq name ""
        then (do
          config ← call (parse_config cwd) (λ t. D.parse_config t cwd)
          pure (namespace_of config.lab))
        else pure name

  -- `environment reset`
  unfoldable pub reset_command : Bool → Exec Call (Unit {0})
  unfolding environment_working_directory reset_name say confirm
  reset_command assume_yes = do
    cwd ← environment_working_directory
    name ← reset_name cwd
    say ("Environment " <> name <> " and all its PVC data will be deleted.\n")
    confirm assume_yes "environment reset requires --yes when stdin is not a terminal"
    call (environment_reset cwd) (λ t. D.environment_reset t cwd)
    say ("Environment " <> name <> " was reset.\n")

  -- `environment start`; the warnings decide nothing, and the progress session passes the error on.
  unfoldable pub environment_start_command : Exec Call (Unit {0})
  unfolding environment_working_directory inspect_cluster print_environment_status say
  environment_start_command = do
    status ← map_err (wrap "%w") (do
      cwd ← environment_working_directory
      lab ← call (configured_lab cwd) (λ t. D.configured_lab t cwd)
      cluster ← inspect_cluster
      call {A = Unit {0}} (resource_warnings lab (length cluster.running_namespaces)) (λ t. ok tt)
      call (environment_start cwd D.version) (λ t. D.environment_start t cwd D.version))
    print_environment_status status
    say "\nNext: tripgoctl connect\n"

  -- `environment list`
  unfoldable pub list_command : Exec Call (Unit {0})
  unfolding say padded
  list_command = do
    items ← call environment_list (λ t. D.environment_list t)
    if is_empty items then say "Environments: none\n" else (do
      say "LAB  NAMESPACE       STATE    COMPONENTS\n"
      for_each items (λ item. say (
          padded item.lab
          <> "   "
          <> pad_right 15 item.namespace
          <> " "
          <> pad_right 8 item.state
          <> " "
          <> join "," (map (λ c. c.name) item.components)
          <> "\n")))
