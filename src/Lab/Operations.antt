-- ===== src/Lab/Operations.antt =====
-- internal/lab/service.go: `Status` and `Reset`. A lease is closed by giving the operation lock back;
-- the current configuration is read before it is taken.
use course_infra.Base.{
  ℕ, String, Bool, true, false, none, some, List, str_eq, leb, ◌&&◌, not, if◌then◌else◌,
}
use course_infra.Text.{◌<>◌}
use course_infra.Errors.{new, wrap, is, prerequisite, api_not_found}
use course_infra.Effects.{
  Exec, pure, fail, lift, call, map_err, catch, attempt, finally, ◌>>=◌, ◌>>◌, either, refuse,
}
use course_infra.Effects.World.{World, Event, namespaces, delete}
use course_infra.Catalog.{namespace}
use course_infra.Config.{Config, Decoded, parse_file}
use course_infra.Cluster.{Service, prerequisite_error}
use course_infra.Cluster.State.{Codec, read, release_lock}
use course_infra.Cluster.Lease.{
  EnvironmentLease, begin_environment_operation, set_environment_state,
}
use course_infra.Lab.{RuntimeStatus}
use course_infra.Lab.Ownership.{get_object, verify_namespace}
use course_infra.Lab.Readiness.{poll, status_with, deletion_rounds}
use course_infra.Lab.Files.{remove_generated_file, remove_generated_dir}

-- The namespace of the catalog's entry, empty where there is none.
unfoldable pub namespace_of : ℕ → String
unfolding namespace
namespace_of lab = elim (namespace lab) [ none ↦ "" | some name ↦ name ]

module _ (W : World) (decode : List ℕ → Decoded) where
  -- `loadCurrentConfig`
  unfoldable pub load_current_config : String → Exec (Event W.Object) Config
  unfolding read parse_file
  load_current_config cwd = do
    refuse (str_eq cwd "") (new "working directory is required")
    bytes ← attempt (read W (cwd <> "/environment.toml"))
    config ← lift (parse_file decode (cwd <> "/environment.toml") bytes)
    refuse (not (leb 1 config.lab && leb config.lab 5)) (
        prerequisite_error
          "%w: lab %d lifecycle is not available; this tripgoctl version supports labs 1 through 5")
    pure config

module _ (W : World) (json : Codec) (s : Service) where
  -- `client`, whose lease the operation closes in the end, around the operation.
  unfoldable pub with_client {ℓ} :
      {A : Type ℓ} → (EnvironmentLease → Exec (Event W.Object) A) → Exec (Event W.Object) A
  unfolding begin_environment_operation release_lock
  with_client k = do
    lease ← begin_environment_operation W json s
    finally
        (do
          map_err (wrap "create Kubernetes client: %w") (lift (W.new_client lease.cluster_id))
          k lease)
        (release_lock W s)

  -- `Status`
  unfoldable pub status : (List ℕ → Decoded) → String → Exec (Event W.Object) RuntimeStatus
  unfolding with_client status_with
  status decode cwd = do
    config ← load_current_config W decode cwd
    with_client (λ lease. status_with W config.lab lease.cluster_id)

  -- The condition of the wait in `Reset`.
  unfoldable pub namespace_is_gone : String → Exec (Event W.Object) Bool
  unfolding get_object
  namespace_is_gone name = do
    found ← attempt (get_object W namespaces "" name)
    either found (λ object. pure false) (λ e. if is e api_not_found then pure true else fail e)

  -- The deletion in `Reset`, and the wait for its end.
  unfoldable pub delete_namespace : String → Exec (Event W.Object) (Unit {0})
  unfolding poll namespace_is_gone
  delete_namespace name = do
    catch (call (delete namespaces name) (λ t. W.delete t namespaces name))
        (λ e. if is e api_not_found then pure tt else fail (wrap "delete namespace %s: %w" e))
    map_err (wrap "wait for namespace %s deletion: %w")
        (poll W deletion_rounds (namespace_is_gone name))

  -- The first part of `Reset` with the lease: a namespace that is not there is not deleted.
  unfoldable pub remove_namespace : ℕ → String → String → Exec (Event W.Object) (Unit {0})
  unfolding delete_namespace
  remove_namespace lab name cluster_id = do
    verified ← attempt (verify_namespace W lab name cluster_id)
    either verified (λ u. delete_namespace name)
        (λ e. if is e prerequisite then pure tt else fail e)

  -- `Reset` with the lease.
  unfoldable pub reset_with :
      String → ℕ → String → EnvironmentLease → Exec (Event W.Object) (Unit {0})
  unfolding remove_namespace set_environment_state remove_generated_file remove_generated_dir
  reset_with cwd lab name lease = do
    remove_namespace lab name lease.cluster_id
    set_environment_state W json s lease name false false
    remove_generated_file W (cwd <> "/.env")
    remove_generated_dir W (cwd <> "/.tripgo")

  -- `Reset`
  unfoldable pub reset : (List ℕ → Decoded) → String → Exec (Event W.Object) (Unit {0})
  unfolding with_client namespace_of
  reset decode cwd = do
    config ← load_current_config W decode cwd
    with_client (reset_with cwd config.lab (namespace_of config.lab))
