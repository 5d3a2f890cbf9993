-- ===== src/Cluster/Locking/Body.antt =====
-- internal/cluster/service.go: what the operations do under the lock leaves it as it is.
use course_infra.Base.{String, Bool, List, refl}
use course_infra.Effects.{Exec}
use course_infra.Effects.Keeps.{Keeps, keeps_rules}
use course_infra.Effects.World.{World, Event, patch, get, random}
use course_infra.Cluster.{Service}
use course_infra.Cluster.State.{State, Codec}
use course_infra.Cluster.Lifecycle.{
  verify_state_and_containers, verify_existing, access_kubernetes, remove_owned_orphan_registry,
  run_failed_start_cleanup, or_delete_cluster, connect_registry, create_cluster, create_from_config,
  start_new, start_locked, inspect_locked,
}
use course_infra.Cluster.Stopping.{stop_cluster, stop_registry, stop_owned, stop_locked}
use course_infra.Cluster.Lease.{EnvironmentLease, set_environment_state, begin_locked}
use course_infra.Cluster.Locking.{IsLocked, IsLocked-call}
use course_infra.Cluster.Locking.Steps.{
  change_file-IsLocked, new_temp-IsLocked, command-IsLocked, load_state-IsLocked,
  write_state-IsLocked, check_platform-IsLocked, check_docker-IsLocked, kind_clusters-IsLocked,
  check_marker-IsLocked, verify_registry_ownership-IsLocked, container_exists-IsLocked,
  start_registry-IsLocked, check_ports-IsLocked,
}
use course_infra.Cluster.Locking.Downloads.{ensure_kind-IsLocked, remove_if_there-IsLocked}

ruleset step_rules = (
  keeps_rules, change_file-IsLocked, new_temp-IsLocked, command-IsLocked, load_state-IsLocked,
  write_state-IsLocked, check_platform-IsLocked, check_docker-IsLocked, kind_clusters-IsLocked,
  check_marker-IsLocked, verify_registry_ownership-IsLocked, container_exists-IsLocked,
  start_registry-IsLocked, check_ports-IsLocked, ensure_kind-IsLocked, remove_if_there-IsLocked,
)

module _ (W : World) (json : Codec) where
  verify_state_and_containers-IsLocked :
      (value : State) (hash : String)
      → Keeps (IsLocked W) (verify_state_and_containers W json value hash)
  unfolding verify_state_and_containers
  verify_state_and_containers-IsLocked value hash = search (step_rules) depth 24

  verify_existing-IsLocked :
      (s : Service) (hash : String) → Keeps (IsLocked W) (verify_existing W json s hash)
  unfolding verify_existing
  verify_existing-IsLocked s hash =
      search (step_rules, verify_state_and_containers-IsLocked) depth 24

  access_kubernetes-IsLocked :
      (kind cluster_id : String) (ensure_marker : Bool)
      → Keeps (IsLocked W) (access_kubernetes W json kind cluster_id ensure_marker)
  unfolding access_kubernetes
  access_kubernetes-IsLocked kind cluster_id ensure_marker =
      search
        (step_rules, IsLocked-call W (patch _ _ _ _) _ refl, IsLocked-call W (get _ _ _) _ refl)
        depth 24

  remove_owned_orphan_registry-IsLocked :
      (s : Service) → Keeps (IsLocked W) (remove_owned_orphan_registry W json s)
  unfolding remove_owned_orphan_registry
  remove_owned_orphan_registry-IsLocked s = search (step_rules) depth 24

  run_failed_start_cleanup-IsLocked :
      (name : String) (arguments : List String)
      → Keeps (IsLocked W) (run_failed_start_cleanup W json name arguments)
  unfolding run_failed_start_cleanup
  run_failed_start_cleanup-IsLocked name arguments = search (step_rules) depth 24

  or_delete_cluster-IsLocked :
      {A : Type 0} (kind : String) (m : Exec (Event W.Object) A)
      → Keeps (IsLocked W) m
      → Keeps (IsLocked W) (or_delete_cluster W json kind m)
  unfolding or_delete_cluster
  or_delete_cluster-IsLocked kind m k =
      search (step_rules, run_failed_start_cleanup-IsLocked) depth 24

  connect_registry-IsLocked : (kind : String) → Keeps (IsLocked W) (connect_registry W json kind)
  unfolding connect_registry
  connect_registry-IsLocked kind = search (step_rules, run_failed_start_cleanup-IsLocked) depth 24

  create_cluster-IsLocked :
      (s : Service) (kind : String) (path : String) (hash : String) (id : String)
      → Keeps (IsLocked W) (create_cluster W json s kind path hash id)
  unfolding create_cluster
  create_cluster-IsLocked s kind path hash id =
      search
        (
          step_rules, connect_registry-IsLocked, or_delete_cluster-IsLocked,
          access_kubernetes-IsLocked,
        )
        depth 24

  create_from_config-IsLocked :
      (s : Service) (kind : String) (text : String) (hash : String) (id : String)
      → Keeps (IsLocked W) (create_from_config W json s kind text hash id)
  unfolding create_from_config
  create_from_config-IsLocked s kind text hash id =
      search (step_rules, create_cluster-IsLocked, run_failed_start_cleanup-IsLocked) depth 24

  start_new-IsLocked :
      (s : Service) (kind : String) (text : String) (hash : String)
      → Keeps (IsLocked W) (start_new W json s kind text hash)
  unfolding start_new
  start_new-IsLocked s kind text hash =
      search
        (
          step_rules,
          remove_owned_orphan_registry-IsLocked,
          create_from_config-IsLocked,
          IsLocked-call W random _ refl,
        )
        depth 24

  pub start_locked-IsLocked : (s : Service) → Keeps (IsLocked W) (start_locked W json s)
  unfolding start_locked
  start_locked-IsLocked s =
      search (step_rules, verify_existing-IsLocked, start_new-IsLocked) depth 24

  pub inspect_locked-IsLocked : (s : Service) → Keeps (IsLocked W) (inspect_locked W json s)
  unfolding inspect_locked
  inspect_locked-IsLocked s = search (step_rules, verify_state_and_containers-IsLocked) depth 24

  stop_cluster-IsLocked :
      (kind : String) (value : State) → Keeps (IsLocked W) (stop_cluster W json kind value)
  unfolding stop_cluster
  stop_cluster-IsLocked kind value = search (step_rules) depth 24

  stop_registry-IsLocked : (value : State) → Keeps (IsLocked W) (stop_registry W json value)
  unfolding stop_registry
  stop_registry-IsLocked value = search (step_rules) depth 24

  stop_owned-IsLocked :
      (s : Service) (kind : String) (expected : List String) (cluster_exists : Bool)
      (registry_exists : Bool) (value : State)
      → Keeps (IsLocked W) (stop_owned W json s kind expected cluster_exists registry_exists value)
  unfolding stop_owned
  stop_owned-IsLocked s kind expected cluster_exists registry_exists value =
      search (step_rules, stop_cluster-IsLocked, stop_registry-IsLocked) depth 24

  pub stop_locked-IsLocked :
      (s : Service) (expected : List String) → Keeps (IsLocked W) (stop_locked W json s expected)
  unfolding stop_locked
  stop_locked-IsLocked s expected = search (step_rules, stop_owned-IsLocked) depth 24

  pub begin_locked-IsLocked : (s : Service) → Keeps (IsLocked W) (begin_locked W json s)
  unfolding begin_locked
  begin_locked-IsLocked s =
      search (step_rules, verify_state_and_containers-IsLocked, access_kubernetes-IsLocked) depth 24

  pub set_environment_state-IsLocked :
      (s : Service) (lease : EnvironmentLease) (namespace : String) (known : Bool) (running : Bool)
      → Keeps (IsLocked W) (set_environment_state W json s lease namespace known running)
  unfolding set_environment_state
  set_environment_state-IsLocked s lease namespace known running = search (step_rules) depth 24
