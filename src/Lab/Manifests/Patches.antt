-- ===== src/Lab/Manifests/Patches.antt =====
-- internal/lab/service.go: the read before each patch of `applyManifestWhere`.
use course_infra.Base.{◌≡◌, refl, ℕ, String, Bool, true, List, [], ◌∷◌, inl, inr, Bool-cases}
use course_infra.Errors.{Result, ok, err, Result-cases, is, api_not_found}
use course_infra.Effects.{◌>>=◌, either}
use course_infra.Effects.Keeps.{Keeps, Keeps-pure, Keeps-fail, Keeps-bind, Keeps-if}
use course_infra.Effects.World.{
  World, Trace, Resource, get, patch, ManifestDocument, broken, blank, invalid, resource,
}
use course_infra.Lab.Ownership.{resource_for, is_owned}
use course_infra.Lab.Manifests.{apply_object, apply_documents, apply_manifest_where}

module _ (W : World) (lab : ℕ) (namespace cluster_id : String) where
  -- An answer that leaves the way free: there is no such object, or it is the environment's own.
  abbrev IsFree : Result W.Object → Type 0
  IsFree (ok found) = is_owned W lab namespace cluster_id found ≡ true
  IsFree (err e) = is e api_not_found ≡ true

  -- The last call read the object, and its answer left the way free.
  abbrev pub IsChecked : Resource → String → String → Trace W → Type 0
  IsChecked kind place name t =
      (u : Trace W) × (t ≡ get kind place name ∷ u) × IsFree (W.get u kind place name)

  -- Every patch of the history came directly after such a read of the same object.
  abbrev pub IsJustified : Trace W → Type 0
  IsJustified [] = Unit
  IsJustified (patch kind place name object ∷ t) = IsChecked kind place name t × IsJustified t
  IsJustified (e ∷ t) = IsJustified t

  apply_object-IsJustified :
      (object : W.Object) → Keeps IsJustified (apply_object W lab namespace cluster_id object)
  unfolding apply_object ◌>>=◌ either
  apply_object-IsJustified object = record {
    at = λ t h. elim (Result-cases (resource_for (W.api_version object) (W.kind object))) [
      | inr (e, f) ↦ rw f h
      | inl (kind, f) ↦ elim (Result-cases (W.marshal object)) [
        | inr (e, g) ↦ rw (f, g) h
        | inl (_, g) ↦ elim (Result-cases (W.get t kind (W.namespace object) (W.name object))) [
          | inl (found, k) ↦ elim (Bool-cases (is_owned W lab namespace cluster_id found)) [
            | inl o ↦ rw (f, g, k, o) ((t, refl, rw k o), h)
            | inr o ↦ rw (f, g, k, o) h
          ]
          | inr (e, k) ↦ elim (Bool-cases (is e api_not_found)) [
            | inl o ↦ rw (f, g, k, o) ((t, refl, rw k o), h)
            | inr o ↦ rw (f, g, k, o) h
          ]
        ]
      ]
    ];
  }

  apply_documents-IsJustified :
      (include : W.Object → Bool) (documents : List (ManifestDocument W.Object))
      → Keeps IsJustified (apply_documents W lab namespace cluster_id include documents)
  unfolding apply_documents
  apply_documents-IsJustified include [] = Keeps-pure tt
  apply_documents-IsJustified include (broken e ∷ rest) = Keeps-fail _
  apply_documents-IsJustified include (blank ∷ rest) = apply_documents-IsJustified include rest
  apply_documents-IsJustified include (invalid e ∷ rest) = Keeps-fail _
  apply_documents-IsJustified include (resource object ∷ rest) =
      Keeps-bind _ _
        (Keeps-if (include object) _ _ (λ _. apply_object-IsJustified object) (λ _. Keeps-pure tt))
        (λ _. apply_documents-IsJustified include rest)

  pub apply_manifest_where-Keeps :
      (include : W.Object → Bool) (content : List ℕ)
      → Keeps IsJustified (apply_manifest_where W lab namespace cluster_id include content)
  unfolding apply_manifest_where
  apply_manifest_where-Keeps include content =
      apply_documents-IsJustified include (W.documents content)

  -- Whatever a manifest holds and the world answers: if every patch before came directly after a read
  -- of the same object that found none or one with the ownership labels of this environment and
  -- cluster, this is so after the manifest is applied, also where applying it fails.
  pub apply_manifest_where-IsJustified :
      (include : W.Object → Bool) (content : List ℕ) (t : Trace W)
      → IsJustified t
      → IsJustified (apply_manifest_where W lab namespace cluster_id include content t).1
  apply_manifest_where-IsJustified include content t h =
      (apply_manifest_where-Keeps include content).at t h
