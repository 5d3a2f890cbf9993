-- ===== src/Cluster/Lifecycle.antt =====
-- internal/cluster/service.go: `Start` and `Inspect` of the cluster. Each holds the operation
-- lock. Progress reports and resource warnings, which decide nothing, are not modelled.
use course_infra.Base.{String, Bool, true, List, [], ◌∷◌, str_eq, not, ◌||◌, pos, if◌then◌else◌}
use course_infra.Text.{◌<>◌, codes}
use course_infra.Errors.{wrap, wrap_two, sentinel, conflict, is, not_exist}
use course_infra.Effects.{
  Exec, pure, fail, lift, call, map_err, catch, finally, ignore, ◌>>=◌, ◌>>◌, refuse,
}
use course_infra.Effects.World.{
  World, Event, patch, get, config_maps, chmod, write, close, remove, random,
}
use course_infra.Config.{is_empty}
use course_infra.Cluster.{
  Service, cluster_name, control_plane_container, registry_container, kind_version,
  kubernetes_version, marker_path, conflict_error, prerequisite_error, prerequisite_of, contains,
}
use course_infra.Cluster.State.{
  State, Codec, change_file, new_temp, acquire_lock, release_lock, load_state, write_state,
}
use course_infra.Cluster.Commands.{
  check_platform, kind_config, command, check_docker, kind_clusters, check_marker,
  verify_registry_ownership, container_exists, start_registry, check_ports,
}
use course_infra.Cluster.Downloader.{ensure_kind}

-- `Status`
pub record Status : Type 0 where
  pub cluster_id : String
  pub ready : Bool
  pub registry_ready : Bool
  pub kind_version : String
  pub kubernetes : String
  pub kind_config_hash : String
  pub known_namespaces : List String
  pub running_namespaces : List String

-- `statusFromState`
abbrev pub status_from_state : State → Bool → Bool → Status
status_from_state value ready registry_ready = record {
  cluster_id = value.cluster_id;
  ready = ready;
  registry_ready = registry_ready;
  kind_version = value.kind_version;
  kubernetes = value.kubernetes;
  kind_config_hash = value.kind_config_hash;
  known_namespaces = value.namespaces;
  running_namespaces = value.running_namespaces;
}

abbrev running_of : String → List String
running_of container = "inspect" ∷ "--format" ∷ "{{.State.Running}}" ∷ container ∷ []

abbrev pub delete_cluster : List String
delete_cluster = "delete" ∷ "cluster" ∷ "--name" ∷ cluster_name ∷ []

abbrev pub remove_registry : List String
remove_registry = "rm" ∷ "-f" ∷ registry_container ∷ []

-- The command that writes the marker into the control plane.
abbrev marker_command : String → String
marker_command cluster_id =
    "mkdir -p /etc/tripgoctl && printf '%s' " <> cluster_id <> " > " <> marker_path

module _ (W : World) (json : Codec) where
  -- `verifyStateAndContainers`
  unfoldable pub verify_state_and_containers : State → String → Exec (Event W.Object) Status
  verify_state_and_containers value config_hash = do
    refuse
        (not (str_eq value.kind_version kind_version)
          || not (str_eq value.kubernetes kubernetes_version)
          || not (str_eq value.kind_config_hash config_hash))
        (conflict_error "%w: existing cluster configuration differs from this tripgoctl version")
    check_marker W value.cluster_id
    verify_registry_ownership W value.cluster_id
    running ←
        map_err (wrap "inspect kind control plane: %w")
          (command W "docker" (running_of control_plane_container))
    registry_running ←
        map_err (wrap "inspect local registry: %w")
          (command W "docker" (running_of registry_container))
    pure (status_from_state value (str_eq running "true") (str_eq registry_running "true"))

  -- `verifyExisting`
  unfoldable pub verify_existing : Service → String → Exec (Event W.Object) Status
  verify_existing s config_hash = do
    value ←
        map_err (λ e. conflict_error "%w: cluster %s exists but owned state is unavailable: %v")
          (load_state W json s)
    verify_state_and_containers value config_hash

  -- `kindKubernetesAccess`, which `accessKubernetes` calls. The result is the cluster's identity.
  unfoldable pub access_kubernetes : String → String → Bool → Exec (Event W.Object) String
  access_kubernetes kind_path cluster_id ensure_marker = do
    kubeconfig ←
        map_err (prerequisite_of "%w: read kubeconfig from owned kind cluster: %w")
          (command W kind_path ("get" ∷ "kubeconfig" ∷ "--name" ∷ cluster_name ∷ []))
    map_err (λ e. prerequisite_error "%w: decode owned kind kubeconfig: %v")
        (lift (W.rest_config kubeconfig))
    map_err (wrap "create cluster identity client: %w") (lift (W.new_client cluster_id))
    if ensure_marker
        then map_err (wrap "install cluster identity marker: %w") (
            call
              (patch config_maps "kube-system" "tripgoctl-cluster-identity"
                (W.identity_marker cluster_id))
              (λ t.
                W.patch t config_maps "kube-system" "tripgoctl-cluster-identity"
                  (W.identity_marker cluster_id)))
        else (do
          marker ←
              map_err (wrap_two "%w: read API cluster identity marker: %w" (sentinel conflict)) (
                call (get config_maps "kube-system" "tripgoctl-cluster-identity")
                  (λ t. W.get t config_maps "kube-system" "tripgoctl-cluster-identity"))
          refuse (not (str_eq (W.nested_string marker ("data" ∷ "cluster-id" ∷ [])) cluster_id))
              (conflict_error "%w: Kubernetes API cluster identity does not match local state"))
    pure cluster_id

  -- `removeOwnedOrphanRegistry`
  unfoldable pub remove_owned_orphan_registry : Service → Exec (Event W.Object) (Unit {0})
  remove_owned_orphan_registry s = do
    exists ← container_exists W registry_container
    if not exists then pure tt else (do
      value ←
          map_err
            (λ e.
              conflict_error
                "%w: registry container %s already exists and ownership cannot be proved")
            (load_state W json s)
      verify_registry_ownership W value.cluster_id
      map_err (wrap "remove orphan local registry: %w") (command W "docker" remove_registry)
      pure tt)

  -- `runFailedStartCleanup`
  unfoldable pub run_failed_start_cleanup : String → List String → Exec (Event W.Object) (Unit {0})
  run_failed_start_cleanup name arguments = ignore (command W name arguments)

  -- A step of `Start` behind which the new cluster is deleted on failure.
  unfoldable pub or_delete_cluster {ℓ} :
      {A : Type ℓ} → String → Exec (Event W.Object) A → Exec (Event W.Object) A
  unfolding run_failed_start_cleanup
  or_delete_cluster kind_path m =
      catch m (λ e. do run_failed_start_cleanup kind_path delete_cluster; fail e)

  -- `strings.Contains(err.Error(), "already exists")` makes the failed connection a success.
  unfoldable pub connect_registry : String → Exec (Event W.Object) (Unit {0})
  connect_registry kind_path =
      catch
        (do command W "docker" ("network" ∷ "connect" ∷ "kind" ∷ registry_container ∷ []); pure tt)
        (λ e. if W.mentions e "already exists" then pure tt else (do
          run_failed_start_cleanup kind_path delete_cluster
          fail (wrap "connect local registry to kind network: %w" e)))

  -- The steps of `Start` from `kind create cluster` on, with the written config.
  unfoldable pub create_cluster :
      Service → String → String → String → String → Exec (Event W.Object) Status
  create_cluster s kind_path config_path config_hash cluster_id = do
    map_err (prerequisite_of "%w: create kind cluster: %w") (
        command W kind_path
          ("create" ∷ "cluster" ∷ "--config" ∷ config_path ∷ "--wait" ∷ "120s" ∷ []))
    connect_registry kind_path
    or_delete_cluster kind_path (
        map_err (wrap "write cluster identity marker: %w") (
          command W "docker"
            ("exec" ∷ control_plane_container ∷ "sh" ∷ "-c" ∷ marker_command cluster_id ∷ [])))
    or_delete_cluster kind_path (access_kubernetes kind_path cluster_id true)
    let value : State = record {
      schema_version = pos 1;
      cluster_id = cluster_id;
      kind_version = kind_version;
      kubernetes = kubernetes_version;
      kind_config_hash = config_hash;
      namespaces = [];
      running_namespaces = [];
    }
    or_delete_cluster kind_path (write_state W json s value)
    pure (status_from_state value true true)

  -- The part of `Start` that runs once the registry is up: its deferred cleanup removes the registry
  -- unless all of it succeeds.
  unfoldable pub create_from_config :
      Service → String → String → String → String → Exec (Event W.Object) Status
  create_from_config s kind_path config config_hash cluster_id =
      catch
        (do
          path ← map_err (wrap "create kind config: %w") (new_temp W "")
          finally
              (finally
                (do
                  change_file W (chmod path)
                  map_err (wrap "write kind config: %w") (change_file W (write path (codes config)))
                  change_file W (close path)
                  create_cluster s kind_path path config_hash cluster_id)
                (ignore (change_file W (close path))))
              (ignore (change_file W (remove path))))
        (λ e. do run_failed_start_cleanup "docker" remove_registry; fail e)

  -- `Start` where the cluster is not there yet.
  unfoldable pub start_new : Service → String → String → String → Exec (Event W.Object) Status
  start_new s kind_path config config_hash = do
    remove_owned_orphan_registry s
    conflicts ← check_ports W
    refuse (not (is_empty conflicts)) (conflict_error "%w: required host ports are busy: %s")
    cluster_id ← map_err (wrap "create cluster identity: %w") (call random (λ t. W.random t))
    start_registry W cluster_id
    create_from_config s kind_path config config_hash cluster_id

  unfoldable pub start_locked : Service → Exec (Event W.Object) Status
  start_locked s = do
    check_platform s
    check_docker W
    kind_path ← map_err (prerequisite_of "%w: %w") (ensure_kind W s)
    config ← lift (kind_config W)
    clusters ← kind_clusters W kind_path
    if contains clusters cluster_name
        then verify_existing s config.1
        else start_new s kind_path config.0 config.1

  -- `acquireLock` with the error that the operations make of it, and `defer lock.close()`.
  unfoldable pub with_lock {ℓ} :
      {A : Type ℓ} → Service → Exec (Event W.Object) A → Exec (Event W.Object) A
  with_lock s m = do
    map_err (λ e. conflict_error "%w: %v") (acquire_lock W s)
    finally m (release_lock W s)

  -- `Start`
  unfoldable pub start : Service → Exec (Event W.Object) Status
  start s = with_lock s (start_locked s)

  unfoldable pub inspect_locked : Service → Exec (Event W.Object) Status
  inspect_locked s = do
    check_platform s
    check_docker W
    value ←
        map_err
          (λ e.
            if is e not_exist
            then prerequisite_error "%w: cluster %s does not exist; run tripgoctl cluster start"
            else conflict_error "%w: %v")
          (load_state W json s)
    config ← lift (kind_config W)
    verify_state_and_containers value config.1

  -- `Inspect`
  unfoldable pub inspect : Service → Exec (Event W.Object) Status
  inspect s = with_lock s (inspect_locked s)
