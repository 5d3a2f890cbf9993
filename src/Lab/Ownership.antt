-- ===== src/Lab/Ownership.antt =====
-- internal/lab/service.go: the labels that make an object the environment's own, and the checks of
-- the namespace and the workloads.
use course_infra.Base.{ℕ, String, Bool, str_eq, ◌&&◌, if◌then◌else◌}
use course_infra.Text.{◌<>◌, padded}
use course_infra.Errors.{GoError, Result, ok, err, new, wrap, is, api_not_found}
use course_infra.Effects.{Exec, lift, call, map_err, ◌>>=◌, for_each}
use course_infra.Effects.World.{
  World, Event, Resource, get, namespaces, config_maps, secrets, persistent_volume_claims, services,
  deployments, stateful_sets,
}
use course_infra.Cluster.{conflict_error, prerequisite_error}
use course_infra.Lab.{workloads}

-- `resourceFor`
unfoldable pub resource_for : String → String → Result Resource
resource_for api_version kind =
    let key = api_version <> "/" <> kind in
    if str_eq key "v1/Namespace"
    then ok namespaces
    else if str_eq key "v1/ConfigMap"
    then ok config_maps
    else if str_eq key "v1/Secret"
    then ok secrets
    else if str_eq key "v1/PersistentVolumeClaim"
    then ok persistent_volume_claims
    else if str_eq key "v1/Service"
    then ok services
    else if str_eq key "apps/v1/Deployment"
    then ok deployments
    else if str_eq key "apps/v1/StatefulSet"
    then ok stateful_sets
    else err (new "unsupported Kubernetes resource %s %s")

module _ (W : World) where
  -- `target.Get`; the first text is the namespace, empty for an object that has none.
  unfoldable pub get_object : Resource → String → String → Exec (Event W.Object) W.Object
  get_object resource namespace name =
      call (get resource namespace name) (λ t. W.get t resource namespace name)

  -- The condition of `verifyResourceOwnership`, negated.
  unfoldable pub is_owned : ℕ → String → String → W.Object → Bool
  unfolding padded
  is_owned lab namespace cluster_id object =
      str_eq (W.label object "app.kubernetes.io/managed-by") "tripgoctl"
      && str_eq (W.label object "app.kubernetes.io/part-of") "tripgo-local"
      && str_eq (W.label object "tripgo.course/lab") (padded lab)
      && str_eq (W.label object "tripgo.course/environment") namespace
      && str_eq (W.annotation object "tripgo.course/cluster-id") cluster_id

  -- `verifyResourceOwnership`
  unfoldable pub verify_resource_ownership : ℕ → String → String → W.Object → Result (Unit {0})
  unfolding is_owned
  verify_resource_ownership lab namespace cluster_id object =
      if is_owned lab namespace cluster_id object
      then ok tt
      else err (conflict_error "%w: %s %s does not have matching tripgoctl ownership")

  -- `verifyNamespace`
  unfoldable pub verify_namespace : ℕ → String → String → Exec (Event W.Object) (Unit {0})
  unfolding verify_resource_ownership get_object
  verify_namespace lab namespace cluster_id = do
    object ←
        map_err
          (λ e.
            if is e api_not_found
            then prerequisite_error
                "%w: environment %s does not exist; run tripgoctl environment start"
            else wrap "inspect namespace %s: %w" e)
          (get_object namespaces "" namespace)
    map_err (λ e. conflict_error "%w: namespace %s is not owned by this tripgoctl cluster")
        (lift (verify_resource_ownership lab namespace cluster_id object))

  -- What `verifyWorkloadOwnership`, `verifyRedpandaResources` and `statusWith` make of a failed read.
  abbrev pub absent_or : String → GoError → GoError
  absent_or context e =
      if is e api_not_found
      then prerequisite_error "%w: %s is absent in %s; run tripgoctl environment start"
      else wrap context e

  -- `verifyWorkloadOwnership`
  unfoldable pub verify_workload_ownership : ℕ → String → String → Exec (Event W.Object) (Unit {0})
  unfolding workloads
  verify_workload_ownership lab namespace cluster_id = for_each (workloads lab) (λ item. do
    object ←
        map_err (absent_or "inspect %s before lifecycle change: %w")
          (get_object item.resource namespace item.name)
    lift (verify_resource_ownership lab namespace cluster_id object))
