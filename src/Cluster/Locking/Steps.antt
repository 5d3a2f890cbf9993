-- ===== src/Cluster/Locking/Steps.antt =====
-- internal/cluster: the steps of the operations leave the lock as it is.
use course_infra.Base.{String, List, [], ◌∷◌, refl, ℕ}
use course_infra.Effects.Keeps.{Keeps, Keeps-bind, Keeps-pure, keeps_rules}
use course_infra.Effects.World.{World, FileCall, run, read_file, file_call, listen}
use course_infra.Cluster.{Service}
use course_infra.Cluster.State.{State, Codec, change_file, read, new_temp, load_state, write_state}
use course_infra.Cluster.Commands.{
  check_platform, command, check_docker, kind_clusters, check_marker, verify_registry_ownership,
  container_exists, start_registry, busy_ports, check_ports,
}
use course_infra.Cluster.Locking.{IsLocked, IsLocked-call}

module _ (W : World) where
  pub change_file-IsLocked : (c : FileCall) → Keeps (IsLocked W) (change_file W c)
  unfolding change_file
  change_file-IsLocked c = IsLocked-call W (file_call c) _ refl

  pub read-IsLocked : (path : String) → Keeps (IsLocked W) (read W path)
  unfolding read
  read-IsLocked path = IsLocked-call W (read_file path) _ refl

  pub new_temp-IsLocked : (dir : String) → Keeps (IsLocked W) (new_temp W dir)
  unfolding new_temp
  new_temp-IsLocked dir = IsLocked-call W (file_call _) _ refl

  pub command-IsLocked :
      (name : String) (arguments : List String) → Keeps (IsLocked W) (command W name arguments)
  unfolding command
  command-IsLocked name arguments = IsLocked-call W (run name arguments) _ refl

  pub load_state-IsLocked : (json : Codec) (s : Service) → Keeps (IsLocked W) (load_state W json s)
  unfolding load_state
  load_state-IsLocked json s = search (keeps_rules, read-IsLocked)

  pub write_state-IsLocked :
      (json : Codec) (s : Service) (value : State) → Keeps (IsLocked W) (write_state W json s value)
  unfolding write_state
  write_state-IsLocked json s value =
      search (keeps_rules, change_file-IsLocked, new_temp-IsLocked) depth 20

  pub check_platform-IsLocked : (s : Service) → Keeps (IsLocked W) (check_platform s)
  unfolding check_platform
  check_platform-IsLocked s = search (keeps_rules)

  pub check_docker-IsLocked : Keeps (IsLocked W) (check_docker W)
  unfolding check_docker
  check_docker-IsLocked = search (keeps_rules, command-IsLocked)

  pub kind_clusters-IsLocked : (kind : String) → Keeps (IsLocked W) (kind_clusters W kind)
  unfolding kind_clusters
  kind_clusters-IsLocked kind = search (keeps_rules, command-IsLocked)

  pub check_marker-IsLocked : (cluster_id : String) → Keeps (IsLocked W) (check_marker W cluster_id)
  unfolding check_marker
  check_marker-IsLocked cluster_id = search (keeps_rules, command-IsLocked)

  pub verify_registry_ownership-IsLocked :
      (cluster_id : String) → Keeps (IsLocked W) (verify_registry_ownership W cluster_id)
  unfolding verify_registry_ownership
  verify_registry_ownership-IsLocked cluster_id = search (keeps_rules, command-IsLocked)

  pub container_exists-IsLocked : (name : String) → Keeps (IsLocked W) (container_exists W name)
  unfolding container_exists
  container_exists-IsLocked name = search (keeps_rules, command-IsLocked)

  pub start_registry-IsLocked : (id : String) → Keeps (IsLocked W) (start_registry W id)
  unfolding start_registry
  start_registry-IsLocked id = search (keeps_rules, command-IsLocked)

  pub busy_ports-IsLocked : (ports : List ℕ) → Keeps (IsLocked W) (busy_ports W ports)
  unfolding busy_ports
  busy_ports-IsLocked [] = search (keeps_rules)
  busy_ports-IsLocked (port ∷ rest) =
      Keeps-bind _ _ (IsLocked-call W (listen port) _ refl) (λ busy.
        Keeps-bind (busy_ports W rest) _ (busy_ports-IsLocked rest) (λ others. Keeps-pure _))

  pub check_ports-IsLocked : Keeps (IsLocked W) (check_ports W)
  unfolding check_ports
  check_ports-IsLocked = search (busy_ports-IsLocked)
