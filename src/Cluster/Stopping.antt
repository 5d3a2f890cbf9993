-- ===== src/Cluster/Stopping.antt =====
-- internal/cluster/service.go: `Stop` of the cluster, which holds the operation lock.
use course_infra.Base.{String, Bool, List, not, ◌&&◌, if◌then◌else◌}
use course_infra.Errors.{wrap}
use course_infra.Effects.{Exec, pure, fail, map_err, attempt, ◌>>=◌, ◌>>◌, either, refuse}
use course_infra.Effects.World.{World, Event}
use course_infra.Sorting.{sort}
use course_infra.Config.{itself, texts_equal}
use course_infra.Cluster.{
  Service, state_path, cluster_name, registry_container, conflict_error, prerequisite_of, contains,
}
use course_infra.Cluster.State.{State, Codec, load_state}
use course_infra.Cluster.Commands.{
  check_platform, command, check_docker, kind_clusters, check_marker, verify_registry_ownership,
  container_exists,
}
use course_infra.Cluster.Downloader.{ensure_kind, remove_if_there}
use course_infra.Cluster.Lifecycle.{delete_cluster, remove_registry, with_lock}

module _ (W : World) (json : Codec) where
  -- The part of `Stop` for a cluster that exists.
  unfoldable pub stop_cluster : String → State → Exec (Event W.Object) (Unit {0})
  stop_cluster kind_path value = do
    check_marker W value.cluster_id
    map_err (wrap "delete kind cluster: %w") (command W kind_path delete_cluster)
    pure tt

  -- The part of `Stop` for a registry that exists.
  unfoldable pub stop_registry : State → Exec (Event W.Object) (Unit {0})
  stop_registry value = do
    verify_registry_ownership W value.cluster_id
    map_err (wrap "delete local registry: %w") (command W "docker" remove_registry)
    pure tt

  -- The part of `Stop` that deletes, with the state that was read.
  unfoldable pub stop_owned :
      Service → String → List String → Bool → Bool → State → Exec (Event W.Object) (Unit {0})
  stop_owned s kind_path expected cluster_exists registry_exists value = do
    refuse (not (texts_equal (sort itself expected) (sort itself value.namespaces))) (
        conflict_error
          "%w: environments changed after confirmation; run tripgoctl cluster stop again")
    if cluster_exists then stop_cluster kind_path value else pure tt
    if registry_exists then stop_registry value else pure tt
    remove_if_there W (wrap "remove cluster state: %w") (state_path s)

  unfoldable pub stop_locked : Service → List String → Exec (Event W.Object) (Unit {0})
  stop_locked s expected = do
    check_platform s
    check_docker W
    value ← attempt (load_state W json s)
    kind_path ← map_err (prerequisite_of "%w: %w") (ensure_kind W s)
    clusters ← kind_clusters W kind_path
    registry_exists ← container_exists W registry_container
    if not (contains clusters cluster_name) && not registry_exists
        then remove_if_there W (wrap "remove stale cluster state: %w") (state_path s)
        else either value
            (stop_owned s kind_path expected (contains clusters cluster_name) registry_exists)
            (λ e. fail (
              conflict_error "%w: cannot prove ownership because cluster state is unavailable: %v"))

  -- `Stop`
  unfoldable pub stop : Service → List String → Exec (Event W.Object) (Unit {0})
  stop s expected = with_lock W json s (stop_locked s expected)
