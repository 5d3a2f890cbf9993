-- ===== src/Lab/Transitions.antt =====
-- internal/lab/service.go: `Start` and `Stop` of an environment, and the operation lock; the patches
-- that they make on the cluster.
use course_infra.Base.{refl, ℕ, String, Bool, List, [], ◌∷◌}
use course_infra.Text.{◌<>◌}
use course_infra.Effects.Keeps.{
  Keeps, Keeps-pure, Keeps-fail, Keeps-if, Keeps-map_err, Keeps-bind, keeps_rules,
}
use course_infra.Effects.World.{
  World, Trace, get, list, run, lstat, read_file, read_dir, wait, check_context, resource,
  ManifestDocument, broken, blank, invalid,
}
use course_infra.PushImage.{Provider, ensure}
use course_infra.PushImage.Calls.{ensure-Keeps}
use course_infra.Effects.{call}
use course_infra.Cluster.State.{change_file}
use course_infra.Cluster.Locking.Steps.{change_file-IsLocked}
use course_infra.Lab.Listing.{list_environments}
use course_infra.Lab.Listing.Reading.{list_environments-IsUnlocked}
use course_infra.Config.{Config, Decoded}
use course_infra.Cluster.{Service}
use course_infra.Cluster.State.{Codec}
use course_infra.Cluster.Lease.{EnvironmentLease}
use course_infra.Cluster.Locking.{IsLocked, IsLocked-call, IsUnlocked}
use course_infra.Cluster.Locking.Body.{set_environment_state-IsLocked}
use course_infra.Generator.{Templates}
use course_infra.Lab.Files.{ensure_env_writable}
use course_infra.Lab.Guards.{IsLocked-IsReadable, IsUnlocked-IsReadable}
use course_infra.Lab.Manifests.{
  apply_object, apply_documents, apply_manifest_where, patch_object, check_existing,
}
use course_infra.Lab.Manifests.Patches.{IsJustified, apply_manifest_where-Keeps}
use course_infra.Lab.Lifecycle.{
  deploy, scale_down, start_with, stop_with, start_environment, stop_environment,
}
use course_infra.Lab.Changes.{deploy-Keeps, scale_down-Keeps}
use course_infra.Lab.Reads.{
  IsReadable, get_object-Keeps, if_there-Keeps, read-Keeps, status_with-Keeps,
  load_current_config-Keeps,
}
use course_infra.Lab.Operations.{load_current_config}
use course_infra.Lab.Release.{with_client-IsUnlocked}
use course_infra.Lab.Outputs.{write_bundle-IsLocked, ensure_tripgo-IsLocked, write_env-IsLocked}

module _ (W : World) where
  apply_object-IsLocked :
      (lab : ℕ) (name cluster_id : String) (object : W.Object)
      → Keeps (IsLocked W) (apply_object W lab name cluster_id object)
  unfolding apply_object patch_object check_existing
  apply_object-IsLocked lab name cluster_id object = Keeps-bind _ _ (search (keeps_rules)) (λ kind.
      Keeps-bind _ _ (search (keeps_rules)) (λ _.
        Keeps-bind _ _
          (search (keeps_rules, get_object-Keeps W (IsLocked W) (IsLocked-IsReadable W)) depth 20)
          (λ _. Keeps-map_err _ _ (IsLocked-call W _ _ refl))))

  apply_documents-IsLocked :
      (lab : ℕ) (name cluster_id : String) (include : W.Object → Bool)
      (documents : List (ManifestDocument W.Object))
      → Keeps (IsLocked W) (apply_documents W lab name cluster_id include documents)
  unfolding apply_documents
  apply_documents-IsLocked lab name cluster_id include [] = Keeps-pure tt
  apply_documents-IsLocked lab name cluster_id include (broken e ∷ rest) = Keeps-fail _
  apply_documents-IsLocked lab name cluster_id include (blank ∷ rest) =
      apply_documents-IsLocked lab name cluster_id include rest
  apply_documents-IsLocked lab name cluster_id include (invalid e ∷ rest) = Keeps-fail _
  apply_documents-IsLocked lab name cluster_id include (resource object ∷ rest) =
      Keeps-bind _ _
        (Keeps-if (include object) _ _ (λ _. apply_object-IsLocked lab name cluster_id object)
          (λ _. Keeps-pure tt))
        (λ _. apply_documents-IsLocked lab name cluster_id include rest)

  apply-IsLocked :
      (lab : ℕ) (name cluster_id : String) (include : W.Object → Bool) (content : List ℕ)
      → Keeps (IsLocked W) (apply_manifest_where W lab name cluster_id include content)
  unfolding apply_manifest_where
  apply-IsLocked lab name cluster_id include content =
      apply_documents-IsLocked lab name cluster_id include (W.documents content)

  ensure-IsLocked : (images : Provider) → Keeps (IsLocked W) (ensure W images)
  unfolding change_file call
  ensure-IsLocked images =
      ensure-Keeps W (IsLocked W) (λ c. (change_file-IsLocked W c).at)
        (λ program arguments.
          (IsLocked-call W (run program arguments) (λ t. W.run t program arguments) refl).at)
        images

  module _ (T : Templates) where
    deploy-IsLocked :
        (images : Provider) (config : Config) (version name cluster_id : String)
        → Keeps (IsLocked W) (deploy W T images config version name cluster_id)
    deploy-IsLocked images config version name cluster_id =
        deploy-Keeps W (IsLocked W) (IsLocked-IsReadable W) T images config version name cluster_id
          (apply-IsLocked config.lab name cluster_id) (ensure-IsLocked images)

    scale_down-IsLocked :
        (config : Config) (version name cluster_id : String)
        → Keeps (IsLocked W) (scale_down W T config version name cluster_id)
    scale_down-IsLocked config version name cluster_id =
        scale_down-Keeps W (IsLocked W) (IsLocked-IsReadable W) T config version name cluster_id
          (apply-IsLocked config.lab name cluster_id)

    module _ (json : Codec) (s : Service) (decode : List ℕ → Decoded) where
      start_with-IsLocked :
          (images : Provider) (cwd version : String) (config : Config) (lease : EnvironmentLease)
          → Keeps (IsLocked W) (start_with W T json s decode images cwd version config lease)
      unfolding start_with
      start_with-IsLocked images cwd version config lease =
          search
            (
              keeps_rules,
              ensure_tripgo-IsLocked,
              deploy-IsLocked,
              set_environment_state-IsLocked W json,
              write_bundle-IsLocked,
              write_env-IsLocked,
              status_with-Keeps W (IsLocked W) (IsLocked-IsReadable W),
            )
            depth 24

      stop_with-IsLocked :
          (version : String) (config : Config) (lease : EnvironmentLease)
          → Keeps (IsLocked W) (stop_with W T json s decode version config lease)
      unfolding stop_with
      stop_with-IsLocked version config lease =
          search
            (
              keeps_rules,
              scale_down-IsLocked,
              set_environment_state-IsLocked W json,
              status_with-Keeps W (IsLocked W) (IsLocked-IsReadable W),
            )
            depth 24

      IsUnlocked-config : (cwd : String) → Keeps (IsUnlocked W) (load_current_config W decode cwd)
      IsUnlocked-config =
          load_current_config-Keeps W (IsUnlocked W) (IsUnlocked-IsReadable W) decode

      IsUnlocked-env : (path : String) → Keeps (IsUnlocked W) (ensure_env_writable W path)
      unfolding ensure_env_writable
      IsUnlocked-env path =
          search
            (
              keeps_rules,
              if_there-Keeps W (IsUnlocked W) (IsUnlocked-IsReadable W),
              read-Keeps W (IsUnlocked W) (IsUnlocked-IsReadable W),
            )
            depth 20

      start-IsUnlocked :
          (images : Provider) (cwd version : String)
          → Keeps (IsUnlocked W) (start_environment W T json s decode images cwd version)
      unfolding start_environment
      start-IsUnlocked images cwd version = Keeps-bind _ _ (IsUnlocked-config cwd) (λ config.
          Keeps-bind _ _ (IsUnlocked-env (cwd <> "/.env")) (λ _.
            with_client-IsUnlocked W json s _ (start_with-IsLocked images cwd version config)))

      stop-IsUnlocked :
          (cwd version : String)
          → Keeps (IsUnlocked W) (stop_environment W T json s decode cwd version)
      unfolding stop_environment
      stop-IsUnlocked cwd version =
          Keeps-bind _ _ (IsUnlocked-config cwd)
            (λ config. with_client-IsUnlocked W json s _ (stop_with-IsLocked version config))

      -- From a history in which the operation lock is free and every change was made under the lock,
      -- `Start` and `Stop` of an environment and `List` lead to such a history again, whatever the
      -- world answers and the templates render, whether they return or fail: image, patches, state
      -- file, manifests and `.env` are all changed under the lock, which is given back.
      pub transitions-IsUnlocked :
          (images : Provider) (cwd version : String) (t : Trace W)
          → IsUnlocked W t
          → IsUnlocked W (start_environment W T json s decode images cwd version t).1
            × IsUnlocked W (stop_environment W T json s decode cwd version t).1
            × IsUnlocked W (list_environments W json s t).1
      transitions-IsUnlocked images cwd version t h = (
        (start-IsUnlocked images cwd version).at t h,
        (stop-IsUnlocked cwd version).at t h,
        (list_environments-IsUnlocked W json s).at t h,
      )

    module _ (lab : ℕ) (name cluster_id : String) where
      IsJustified-IsReadable : IsReadable W (IsJustified W lab name cluster_id)
      IsJustified-IsReadable (get kind place item) r t h = h
      IsJustified-IsReadable (list kind place selector) r t h = h
      IsJustified-IsReadable (lstat path) r t h = h
      IsJustified-IsReadable (read_file path) r t h = h
      IsJustified-IsReadable (read_dir path) r t h = h
      IsJustified-IsReadable wait r t h = h
      IsJustified-IsReadable check_context r t h = h
      IsJustified-IsReadable _ r t h = cc

    -- Whatever the world answers and the templates render: the parts of `Start` and `Stop` on the
    -- cluster patch an object only directly after a read that found none or one with the ownership
    -- labels of this environment and cluster, for all files of the bundle, also where they fail.
    pub deploy-IsJustified :
        (images : Provider) (config : Config) (version name cluster_id : String) (t : Trace W)
        → IsJustified W config.lab name cluster_id t
        → IsJustified W config.lab name cluster_id
            (deploy W T images config version name cluster_id t).1
          × IsJustified W config.lab name cluster_id
              (scale_down W T config version name cluster_id t).1
    deploy-IsJustified images config version name cluster_id t h =
        let P = IsJustified W config.lab name cluster_id in
        let reads = IsJustified-IsReadable config.lab name cluster_id in
        let applies = apply_manifest_where-Keeps W config.lab name cluster_id in
        (
          (deploy-Keeps W P reads T images config version name cluster_id applies
                (ensure-Keeps W P (λ c u k. k) (λ program arguments u k. k) images)).at
              t h,
          (scale_down-Keeps W P reads T config version name cluster_id applies).at t h,
        )
