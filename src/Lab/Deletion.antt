-- ===== src/Lab/Deletion.antt =====
-- internal/lab/service.go: the read before the deletion in `Reset`.
use course_infra.Base.{◌≡◌, refl, ℕ, String, true, [], ◌∷◌, inl, inr, Bool-cases}
use course_infra.Errors.{ok, Result-cases, is, prerequisite, api_not_found}
use course_infra.Effects.{◌>>=◌, either}
use course_infra.Effects.Keeps.{Keeps, keeps_rules}
use course_infra.Effects.World.{
  World, Trace, get, list, lstat, read_file, read_dir, wait, check_context, delete, namespaces,
}
use course_infra.Cluster.{Service}
use course_infra.Cluster.State.{Codec}
use course_infra.Lab.Ownership.{is_owned, verify_namespace}
use course_infra.Lab.Readiness.{poll, deletion_rounds}
use course_infra.Lab.Reads.{IsReadable, get_object-Keeps, poll-Keeps}
use course_infra.Lab.Operations.{namespace_is_gone, delete_namespace, remove_namespace}

module _ (W : World) (lab : ℕ) (namespace cluster_id : String) where
  -- The last call read an object of this name that has the environment's labels.
  abbrev pub IsVerified : String → Trace W → Type 0
  IsVerified name t =
      (u : Trace W) × (found : W.Object) × (t ≡ get namespaces "" name ∷ u)
      × (W.get u namespaces "" name ≡ ok found)
      × (is_owned W lab namespace cluster_id found ≡ true)

  -- Every deletion of the history came directly after such a read of what it deletes.
  abbrev pub IsSafe : Trace W → Type 0
  IsSafe [] = Unit
  IsSafe (delete kind name ∷ t) = IsVerified name t × IsSafe t
  IsSafe (e ∷ t) = IsSafe t

  IsSafe-IsReadable : IsReadable W IsSafe
  IsSafe-IsReadable (get kind place name) r t h = h
  IsSafe-IsReadable (list kind place selector) r t h = h
  IsSafe-IsReadable (lstat path) r t h = h
  IsSafe-IsReadable (read_file path) r t h = h
  IsSafe-IsReadable (read_dir path) r t h = h
  IsSafe-IsReadable wait r t h = h
  IsSafe-IsReadable check_context r t h = h
  IsSafe-IsReadable _ r t h = cc

  -- What follows the deletion.
  wait_for_deletion-IsSafe :
      (json : Codec) (s : Service) (name : String)
      → Keeps IsSafe (poll W deletion_rounds (namespace_is_gone W json s name))
  unfolding namespace_is_gone
  wait_for_deletion-IsSafe json s name =
      poll-Keeps W IsSafe IsSafe-IsReadable deletion_rounds _
        (search (keeps_rules, get_object-Keeps W IsSafe IsSafe-IsReadable) depth 20)

  delete_namespace-IsSafe :
      (json : Codec) (s : Service) (t : Trace W)
      → IsVerified namespace t
      → IsSafe t
      → IsSafe (delete_namespace W json s namespace t).1
  unfolding delete_namespace ◌>>=◌
  delete_namespace-IsSafe json s t v h = elim (Result-cases (W.delete t namespaces namespace)) [
    | inl (_, d) ↦ rw d ((wait_for_deletion-IsSafe json s namespace).at _ (v, h))
    | inr (e, d) ↦ elim (Bool-cases (is e api_not_found)) [
      | inl n ↦ rw (d, n) ((wait_for_deletion-IsSafe json s namespace).at _ (v, h))
      | inr n ↦ rw (d, n) (v, h)
    ]
  ]

  -- Whatever the world answers: if every deletion before came directly after a read that answered with
  -- the object of that name, with the ownership labels of this environment and cluster, this is so
  -- after the namespace is verified and, where it is there, deleted and waited for.
  pub remove_namespace-IsSafe :
      (json : Codec) (s : Service) (t : Trace W)
      → IsSafe t
      → IsSafe (remove_namespace W json s lab namespace cluster_id t).1
  unfolding remove_namespace verify_namespace ◌>>=◌ either
  remove_namespace-IsSafe json s t h = elim (Result-cases (W.get t namespaces "" namespace)) [
    | inl (found, g) ↦ elim (Bool-cases (is_owned W lab namespace cluster_id found)) [
      | inl o ↦ rw (g, o) (delete_namespace-IsSafe json s _ (t, found, refl, g, o) h)
      | inr o ↦ rw (g, o) h
    ]
    | inr (e, g) ↦ elim (Bool-cases (is e api_not_found)) [
      | inl n ↦ rw (g, n) h
      | inr n ↦ elim (Bool-cases (is e prerequisite)) [
        | inl p ↦ rw (g, n, p) h
        | inr p ↦ rw (g, n, p) h
      ]
    ]
  ]
