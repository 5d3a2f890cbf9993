-- ===== src/Lab/Manifests.antt =====
-- internal/lab/service.go: the generated manifests, checked and applied object by object.
pub mod Patches
use course_infra.Base.{ℕ, String, Bool, true, false, List, [], ◌∷◌, if◌then◌else◌}
use course_infra.Errors.{GoError, Result, ok, err, wrap, is, api_not_found, api_conflict}
use course_infra.Effects.{
  Exec, pure, fail, lift, call, map_err, attempt, ◌>>=◌, ◌>>◌, either, for_each,
}
use course_infra.Effects.World.{
  World, Event, Resource, ManifestDocument, broken, blank, invalid, resource, patch,
}
use course_infra.Generator.{File}
use course_infra.Cluster.{conflict_error}
use course_infra.Lab.Ownership.{get_object, resource_for, verify_resource_ownership}

module _ (W : World) (lab : ℕ) (namespace cluster_id : String) where
  -- The read before a change: an object that is not there, or one of the environment.
  unfoldable pub check_existing :
      (GoError → GoError) → Resource → W.Object → Exec (Event W.Object) (Unit {0})
  unfolding get_object verify_resource_ownership
  check_existing context kind object = do
    existing ← attempt (get_object W kind (W.namespace object) (W.name object))
    either existing (λ found. lift (verify_resource_ownership W lab namespace cluster_id found))
        (λ e. if is e api_not_found then pure tt else fail (context e))

  -- One object of `verifyManifestBundleOwnership`.
  unfoldable pub verify_object : W.Object → Exec (Event W.Object) (Unit {0})
  unfolding check_existing resource_for
  verify_object object = do
    kind ← lift (resource_for (W.api_version object) (W.kind object))
    check_existing (wrap "inspect existing %s/%s during ownership preflight: %w") kind object

  -- The documents of one file in `verifyManifestBundleOwnership`.
  unfoldable pub verify_documents :
      List (ManifestDocument W.Object) → Exec (Event W.Object) (Unit {0})
  unfolding verify_object
  verify_documents [] = pure tt
  verify_documents (broken e ∷ rest) = fail (wrap "decode %s during ownership preflight: %w" e)
  verify_documents (blank ∷ rest) = verify_documents rest
  verify_documents (invalid e ∷ rest) =
      fail (wrap "decode resource in %s during ownership preflight: %w" e)
  verify_documents (resource object ∷ rest) = verify_object object >>= λ _. verify_documents rest

  -- `verifyManifestBundleOwnership`
  unfoldable pub verify_manifest_bundle_ownership : List File → Exec (Event W.Object) (Unit {0})
  unfolding verify_documents
  verify_manifest_bundle_ownership files =
      for_each files (λ file. verify_documents (W.documents file.content))

  -- `target.Patch`
  unfoldable pub patch_object : Resource → W.Object → Exec (Event W.Object) (Unit {0})
  patch_object kind object =
      map_err
        (λ e.
          if is e api_conflict
          then conflict_error "%w: server-side apply conflict for %s/%s: %v"
          else wrap "server-side apply %s/%s: %w" e)
        (call (patch kind (W.namespace object) (W.name object) object)
          (λ t. W.patch t kind (W.namespace object) (W.name object) object))

  -- One object of `applyManifestWhere`.
  unfoldable pub apply_object : W.Object → Exec (Event W.Object) (Unit {0})
  unfolding check_existing patch_object resource_for
  apply_object object = do
    kind ← lift (resource_for (W.api_version object) (W.kind object))
    lift (W.marshal object)
    check_existing (wrap "inspect existing %s/%s: %w") kind object
    patch_object kind object

  -- The loop of `applyManifestWhere`.
  unfoldable pub apply_documents :
      (W.Object → Bool) → List (ManifestDocument W.Object) → Exec (Event W.Object) (Unit {0})
  unfolding apply_object
  apply_documents include [] = pure tt
  apply_documents include (broken e ∷ rest) = fail (wrap "decode manifest: %w" e)
  apply_documents include (blank ∷ rest) = apply_documents include rest
  apply_documents include (invalid e ∷ rest) = fail (wrap "decode resource: %w" e)
  apply_documents include (resource object ∷ rest) =
      (if include object then apply_object object else pure tt) >>= λ _.
      apply_documents include rest

  -- `applyManifestWhere`
  unfoldable pub apply_manifest_where :
      (W.Object → Bool) → List ℕ → Exec (Event W.Object) (Unit {0})
  unfolding apply_documents
  apply_manifest_where include content = apply_documents include (W.documents content)

  -- `applyManifest`
  unfoldable pub apply_manifest : List ℕ → Exec (Event W.Object) (Unit {0})
  unfolding apply_manifest_where
  apply_manifest content = apply_manifest_where (λ object. true) content
