-- ===== src/Lab/Release.antt =====
-- internal/lab/service.go: the operation lock around `Status` and `Reset`.
use course_infra.Base.{refl, ℕ, String, List}
use course_infra.Errors.{GoError, Result, ok, err, wrap}
use course_infra.Effects.{Exec, lift, call, map_err, finally, ◌>>=◌, ◌>>◌, continue}
use course_infra.Effects.Keeps.{Keeps, Keeps-bind, Keeps-catch, Keeps-map_err, keeps_rules}
use course_infra.Effects.World.{World, Trace, Event, read_dir, delete, namespaces, FileInfo}
use course_infra.Config.{Decoded}
use course_infra.Cluster.{Service}
use course_infra.Cluster.State.{Codec, read, release_lock}
use course_infra.Cluster.Lease.{EnvironmentLease, begin_environment_operation}
use course_infra.Cluster.Locking.{IsLocked, IsLocked-call, IsUnlocked}
use course_infra.Cluster.Locking.Release.{
  IsHeldAfter, release_lock-IsUnlocked, begin_environment_operation-IsHeldAfter,
}
use course_infra.Lab.Reads.{
  read-Keeps, get_object-Keeps, verify_namespace-Keeps, status_with-Keeps, poll-Keeps,
  load_current_config-Keeps, if_there-Keeps,
}
use course_infra.Cluster.Locking.Steps.{change_file-IsLocked}
use course_infra.Cluster.Locking.Downloads.{remove_if_there-IsLocked}
use course_infra.Cluster.Locking.Body.{set_environment_state-IsLocked}
use course_infra.Lab.Readiness.{deletion_rounds}
use course_infra.Lab.Files.{
  if_there, remove_generated_file, remove_rendered, remove_legacy_lock, remove_generated_dir,
}
use course_infra.Lab.Operations.{
  load_current_config, with_client, status, namespace_is_gone, delete_namespace, remove_namespace,
  reset_with, reset,
}
use course_infra.Lab.Guards.{IsLocked-IsReadable, IsUnlocked-IsReadable}

module _ (W : World) where
  read_dir-IsLocked :
      (path : String) → Keeps (IsLocked W) (call (read_dir path) (λ t. W.read_dir t path))
  read_dir-IsLocked path = IsLocked-call W (read_dir path) _ refl

  IsLocked-read : (path : String) → Keeps (IsLocked W) (read W path)
  IsLocked-read = read-Keeps W (IsLocked W) (IsLocked-IsReadable W)

  IsLocked-if_there :
      (path : String) (context : GoError → GoError)
      (k : FileInfo → Exec (Event W.Object) (Unit {0}))
      → ((info : FileInfo) → Keeps (IsLocked W) (k info))
      → Keeps (IsLocked W) (if_there W path context k)
  IsLocked-if_there = if_there-Keeps W (IsLocked W) (IsLocked-IsReadable W)

  ruleset file_rules = (
    keeps_rules, IsLocked-read, IsLocked-if_there, change_file-IsLocked, remove_if_there-IsLocked,
    read_dir-IsLocked,
  )

  remove_generated_file-IsLocked :
      (path : String) → Keeps (IsLocked W) (remove_generated_file W path)
  unfolding remove_generated_file
  remove_generated_file-IsLocked path = search (file_rules) depth 20

  remove_rendered-IsLocked : (path : String) → Keeps (IsLocked W) (remove_rendered W path)
  unfolding remove_rendered
  remove_rendered-IsLocked path = search (file_rules) depth 20

  remove_legacy_lock-IsLocked : (path : String) → Keeps (IsLocked W) (remove_legacy_lock W path)
  unfolding remove_legacy_lock
  remove_legacy_lock-IsLocked path = search (file_rules) depth 20

  remove_generated_dir-IsLocked : (path : String) → Keeps (IsLocked W) (remove_generated_dir W path)
  unfolding remove_generated_dir
  remove_generated_dir-IsLocked path =
      search (file_rules, remove_rendered-IsLocked, remove_legacy_lock-IsLocked) depth 20

  namespace_is_gone-IsLocked :
      (json : Codec) (s : Service) (name : String)
      → Keeps (IsLocked W) (namespace_is_gone W json s name)
  unfolding namespace_is_gone
  namespace_is_gone-IsLocked json s name =
      search (keeps_rules, get_object-Keeps W (IsLocked W) (IsLocked-IsReadable W)) depth 20

  delete_namespace-IsLocked :
      (json : Codec) (s : Service) (name : String)
      → Keeps (IsLocked W) (delete_namespace W json s name)
  unfolding delete_namespace
  delete_namespace-IsLocked json s name =
      Keeps-bind _ _
        (Keeps-catch _ _ (IsLocked-call W (delete namespaces name) _ refl)
          (λ e. search (keeps_rules)))
        (λ _. Keeps-map_err _ _ (
          poll-Keeps W (IsLocked W) (IsLocked-IsReadable W) deletion_rounds _
            (namespace_is_gone-IsLocked json s name)))

  reset_with-IsLocked :
      (json : Codec) (s : Service) (cwd : String) (lab : ℕ) (name : String)
      (lease : EnvironmentLease)
      → Keeps (IsLocked W) (reset_with W json s cwd lab name lease)
  unfolding reset_with remove_namespace
  reset_with-IsLocked json s cwd lab name lease =
      search
        (
          keeps_rules,
          verify_namespace-Keeps W (IsLocked W) (IsLocked-IsReadable W),
          delete_namespace-IsLocked,
          set_environment_state-IsLocked,
          remove_generated_file-IsLocked,
          remove_generated_dir-IsLocked,
        )
        depth 20

  module _ (json : Codec) (s : Service) where
    closed :
        {A : Type 0} (k : EnvironmentLease → Exec (Event W.Object) A)
        → ((lease : EnvironmentLease) → Keeps (IsLocked W) (k lease))
        → (r : Result EnvironmentLease) (t : Trace W) → IsHeldAfter W (r, t)
        → IsUnlocked W
            (continue r
              (λ lease.
                finally
                  (map_err
                      (wrap "create Kubernetes client: %w")
                      (lift (W.new_client lease.cluster_id))
                    >> k lease)
                  (release_lock W s))
              t).1
    unfolding finally
    closed k h (ok lease) t held = release_lock-IsUnlocked W s _ ((client_step lease).at t held)
      where
        client_step :
            (lease : EnvironmentLease)
            → Keeps (IsLocked W) (
                map_err (wrap "create Kubernetes client: %w") (lift (W.new_client lease.cluster_id))
                >> k lease)
        client_step lease = search (keeps_rules, h) depth 20
    closed k h (err e) t held = held

    pub with_client-IsUnlocked :
        {A : Type 0} (k : EnvironmentLease → Exec (Event W.Object) A)
        → ((lease : EnvironmentLease) → Keeps (IsLocked W) (k lease))
        → Keeps (IsUnlocked W) (with_client W json s k)
    unfolding with_client ◌>>=◌
    with_client-IsUnlocked k h = record {
      at = λ t free.
          let (r, u) = begin_environment_operation W json s t in
          closed k h r u (begin_environment_operation-IsHeldAfter W json s t free);
    }

    IsUnlocked-config :
        (decode : List ℕ → Decoded) (cwd : String)
        → Keeps (IsUnlocked W) (load_current_config W decode cwd)
    IsUnlocked-config = load_current_config-Keeps W (IsUnlocked W) (IsUnlocked-IsReadable W)

    status-IsUnlocked :
        (decode : List ℕ → Decoded) (cwd : String)
        → Keeps (IsUnlocked W) (status W json s decode cwd)
    unfolding status
    status-IsUnlocked decode cwd = Keeps-bind _ _ (IsUnlocked-config decode cwd) (λ config.
        with_client-IsUnlocked _ (λ lease.
          status_with-Keeps W (IsLocked W) (IsLocked-IsReadable W) config.lab lease.cluster_id))

    reset-IsUnlocked :
        (decode : List ℕ → Decoded) (cwd : String)
        → Keeps (IsUnlocked W) (reset W json s decode cwd)
    unfolding reset
    reset-IsUnlocked decode cwd = Keeps-bind _ _ (IsUnlocked-config decode cwd) (λ config.
        with_client-IsUnlocked _ (λ lease. reset_with-IsLocked json s cwd config.lab _ lease))

    -- From a history in which the operation lock is free and every call that changes something was made
    -- under the lock, `Status` and `Reset` of an environment lead to such a history again, whatever the
    -- world answers, whether they return or fail.
    pub environment_operations-IsUnlocked :
        (decode : List ℕ → Decoded) (cwd : String) (t : Trace W)
        → IsUnlocked W t
        → IsUnlocked W (status W json s decode cwd t).1
          × IsUnlocked W (reset W json s decode cwd t).1
    environment_operations-IsUnlocked decode cwd t h =
        ((status-IsUnlocked decode cwd).at t h, (reset-IsUnlocked decode cwd).at t h)
