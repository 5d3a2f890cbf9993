-- ===== src/Lab/Lifecycle.antt =====
-- internal/lab/service.go: `Start` and `Stop`. Progress reports decide nothing and are not modelled; a
-- service always has an image provider.
use course_infra.Base.{
  ℕ, String, Bool, true, false, none, some, List, str_eq, leb, pos, ◌||◌, not, if◌then◌else◌,
}
use course_infra.Text.{◌<>◌, has_prefix}
use course_infra.Errors.{wrap, wrap_two, sentinel, is, prerequisite, api_not_found}
use course_infra.Effects.{
  Exec, pure, fail, lift, map_err, attempt, ◌>>=◌, ◌>>◌, either, refuse, for_each,
}
use course_infra.Effects.World.{World, Event, namespaces, deployments}
use course_infra.Catalog.Images.{local_push_image_repository}
use course_infra.Config.{Config, Decoded}
use course_infra.Cluster.{Service, conflict_error}
use course_infra.Cluster.State.{Codec}
use course_infra.Cluster.Lease.{EnvironmentLease, set_environment_state}
use course_infra.Generator.{Templates, File, generate}
use course_infra.Generator.Write.{write_bundle}
use course_infra.PushImage.{Provider, ensure}
use course_infra.Lab.{RuntimeStatus, workloads}
use course_infra.Lab.Ownership.{
  get_object, verify_namespace, verify_workload_ownership, verify_resource_ownership,
}
use course_infra.Lab.Redpanda.{verify_redpanda_resources}
use course_infra.Lab.Readiness.{wait_for_workloads, workload_image_reference, status_with}
use course_infra.Lab.Manifests.{
  verify_manifest_bundle_ownership, apply_manifest, apply_manifest_where,
}
use course_infra.Lab.Files.{ensure_env_writable, ensure_tripgo_writable, write_env}
use course_infra.Lab.Operations.{load_current_config, with_client, namespace_of}

module _ (W : World) (T : Templates) where
  -- The namespace is not there yet, or it is the environment's own.
  unfoldable pub check_namespace : ℕ → String → String → Exec (Event W.Object) (Unit {0})
  unfolding get_object verify_namespace
  check_namespace lab name cluster_id = do
    present ← attempt (get_object W namespaces "" name)
    either present (λ object. verify_namespace W lab name cluster_id)
        (λ e.
          if is e api_not_found
          then pure tt
          else fail (wrap "inspect namespace %s before apply: %w" e))

  -- The image of the Push Service for `Start`, empty below lab 3.
  unfoldable pub prepare_image : Provider → ℕ → Exec (Event W.Object) String
  unfolding ensure
  prepare_image images lab =
      if leb 3 lab
      then map_err (wrap "prepare local Push Service image: %w") (ensure W images)
      else pure ""

  -- The loop of `Start` over the files.
  unfoldable pub apply_bundle : ℕ → String → String → List File → Exec (Event W.Object) (Unit {0})
  unfolding apply_manifest
  apply_bundle lab name cluster_id files =
      for_each files
        (λ file. map_err (wrap "apply %s: %w") (apply_manifest W lab name cluster_id file.content))

  -- `Start` on the cluster.
  unfoldable pub deploy :
      Provider → Config → String → String → String → Exec (Event W.Object) (List File)
  unfolding check_namespace prepare_image verify_manifest_bundle_ownership apply_bundle
      wait_for_workloads
  deploy images config version name cluster_id = do
    check_namespace config.lab name cluster_id
    image ← prepare_image images config.lab
    files ← lift (
        generate T config (record {
          tripgoctl_version = version;
          cluster_id = cluster_id;
          push_image_reference = image;
          workload_replicas = none;
        }))
    verify_manifest_bundle_ownership W config.lab name cluster_id files
    apply_bundle config.lab name cluster_id files
    map_err (wrap_two "%w: environment workloads did not become ready: %w" (sentinel prerequisite))
        (wait_for_workloads W name (workloads config.lab) (pos 1))
    pure files

  -- The image of the Push Service for `Stop`: the one that is deployed, empty below lab 3.
  unfoldable pub deployed_image : ℕ → String → String → Exec (Event W.Object) String
  unfolding get_object verify_resource_ownership workload_image_reference
  deployed_image lab name cluster_id =
      if leb 3 lab
      then (do
        object ←
            map_err (wrap "inspect Push Service before stop: %w")
              (get_object W deployments name "push-service")
        lift (verify_resource_ownership W lab name cluster_id object)
        refuse
            (not (
              has_prefix (workload_image_reference W object)
                (local_push_image_repository <> "@sha256:")))
            (conflict_error
              "%w: Push Service deployment does not use the managed local image digest")
        pure (workload_image_reference W object))
      else pure ""

  abbrev pub is_workload : W.Object → Bool
  is_workload object = str_eq (W.kind object) "Deployment" || str_eq (W.kind object) "StatefulSet"

  -- The loop of `Stop` over the files.
  unfoldable pub scale_bundle : ℕ → String → String → List File → Exec (Event W.Object) (Unit {0})
  unfolding apply_manifest_where
  scale_bundle lab name cluster_id files = for_each files (λ file.
      map_err (wrap "scale environment workloads to zero: %w")
        (apply_manifest_where W lab name cluster_id is_workload file.content))

  -- `Stop` on the cluster.
  unfoldable pub scale_down : Config → String → String → String → Exec (Event W.Object) (Unit {0})
  unfolding verify_namespace verify_workload_ownership verify_redpanda_resources deployed_image
      verify_manifest_bundle_ownership scale_bundle wait_for_workloads
  scale_down config version name cluster_id = do
    verify_namespace W config.lab name cluster_id
    verify_workload_ownership W config.lab name cluster_id
    if leb 4 config.lab then verify_redpanda_resources W config.lab name cluster_id else pure tt
    image ← deployed_image config.lab name cluster_id
    files ← lift (
        generate T config (record {
          tripgoctl_version = version;
          cluster_id = cluster_id;
          push_image_reference = image;
          workload_replicas = some (pos 0);
        }))
    verify_manifest_bundle_ownership W config.lab name cluster_id files
    scale_bundle config.lab name cluster_id files
    wait_for_workloads W name (workloads config.lab) (pos 0)

  module _ (json : Codec) (s : Service) (decode : List ℕ → Decoded) where
    -- `Start` with the lease.
    unfoldable pub start_with :
        Provider → String → String → Config → EnvironmentLease → Exec (Event W.Object) RuntimeStatus
    unfolding ensure_tripgo_writable namespace_of deploy set_environment_state write_bundle
        write_env
    start_with images cwd version config lease = do
      let name = namespace_of config.lab
      ensure_tripgo_writable W (cwd <> "/.tripgo")
      files ← deploy images config version name lease.cluster_id
      set_environment_state W json s lease name true true
      write_bundle W (cwd <> "/.tripgo") files
      write_env W cwd config version
      status_with W config.lab lease.cluster_id

    -- `Start`
    unfoldable pub start_environment :
        Provider → String → String → Exec (Event W.Object) RuntimeStatus
    unfolding load_current_config ensure_env_writable with_client start_with
    start_environment images cwd version = do
      config ← load_current_config W decode cwd
      ensure_env_writable W (cwd <> "/.env")
      with_client W json s (start_with images cwd version config)

    -- `Stop` with the lease.
    unfoldable pub stop_with :
        String → Config → EnvironmentLease → Exec (Event W.Object) RuntimeStatus
    unfolding namespace_of scale_down set_environment_state
    stop_with version config lease = do
      let name = namespace_of config.lab
      scale_down config version name lease.cluster_id
      set_environment_state W json s lease name true false
      status_with W config.lab lease.cluster_id

    -- `Stop`
    unfoldable pub stop_environment : String → String → Exec (Event W.Object) RuntimeStatus
    unfolding load_current_config with_client stop_with
    stop_environment cwd version = do
      config ← load_current_config W decode cwd
      with_client W json s (stop_with version config)
