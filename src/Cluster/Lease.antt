-- ===== src/Cluster/Lease.antt =====
-- internal/cluster/service.go: the environment lease. `BeginEnvironmentOperation` keeps the operation
-- lock when it succeeds; `Close` gives it back.
use course_infra.Base.{String, Bool, false, str_eq, not, ◌&&◌}
use course_infra.Effects.{Exec, pure, fail, lift, map_err, catch, ◌>>=◌, ◌>>◌, refuse}
use course_infra.Effects.World.{World, Event}
use course_infra.Cluster.{Service, conflict_error, prerequisite_error, prerequisite_of}
use course_infra.Cluster.State.{State, Codec, acquire_lock, release_lock, load_state, write_state}
use course_infra.Cluster.Commands.{check_platform, check_docker, kind_config}
use course_infra.Cluster.Downloader.{ensure_kind}
use course_infra.Cluster.Lifecycle.{verify_state_and_containers, access_kubernetes}
use course_infra.Cluster.Membership.{set_membership}

-- `EnvironmentLease`: the state that was read, and the identity in the access.
pub record EnvironmentLease : Type 0 where
  pub state : State
  pub cluster_id : String

-- The state with the projection of one environment changed.
unfoldable pub with_membership : State → String → Bool → Bool → State
with_membership value namespace known running = record {
  schema_version = value.schema_version;
  cluster_id = value.cluster_id;
  kind_version = value.kind_version;
  kubernetes = value.kubernetes;
  kind_config_hash = value.kind_config_hash;
  namespaces = set_membership value.namespaces namespace known;
  running_namespaces = set_membership value.running_namespaces namespace (known && running);
}

module _ (W : World) (json : Codec) where
  -- `SetEnvironmentState`; the result is the lease with the state that was written.
  unfoldable pub set_environment_state :
      Service → EnvironmentLease → String → Bool → Bool → Exec (Event W.Object) EnvironmentLease
  unfolding with_membership
  set_environment_state s lease namespace known running = do
    value ←
        map_err (λ e. prerequisite_error "%w: update environment state: %v") (load_state W json s)
    refuse (not (str_eq value.cluster_id lease.state.cluster_id))
        (conflict_error "%w: cluster identity changed during environment operation")
    write_state W json s (with_membership value namespace known running)
    pure (record {
      state = with_membership value namespace known running;
      cluster_id = lease.cluster_id;
    })

  -- The part of `BeginEnvironmentOperation` that runs with the lock.
  unfoldable pub begin_locked : Service → Exec (Event W.Object) EnvironmentLease
  begin_locked s = do
    check_platform s
    check_docker W
    value ←
        map_err (λ e. prerequisite_error "%w: cluster %s state is unavailable: %v")
          (load_state W json s)
    config ← lift (kind_config W)
    verify_state_and_containers W json value config.1
    kind_path ← map_err (prerequisite_of "%w: %w") (ensure_kind W s)
    cluster_id ← access_kubernetes W json kind_path value.cluster_id false
    pure (record { state = value; cluster_id = cluster_id })

  -- `BeginEnvironmentOperation`
  unfoldable pub begin_environment_operation : Service → Exec (Event W.Object) EnvironmentLease
  unfolding begin_locked
  begin_environment_operation s = do
    map_err (λ e. conflict_error "%w: %v") (acquire_lock W s)
    catch (begin_locked s) (λ e. do release_lock W s; fail e)
