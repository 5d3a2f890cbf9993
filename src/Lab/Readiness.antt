-- ===== src/Lab/Readiness.antt =====
-- internal/lab/service.go: readiness of a workload, the wait for it, and the status of an environment.
-- A poll runs its condition at once and then once in each interval until its time is over, so `fuel`
-- rounds are all it has; what ends a wait early is the world's answer to `wait`.
use course_infra.Base.{
  ℕ, zero, suc, String, Bool, true, false, Option, none, some, List, [], ◌∷◌, str_eq, ◌==◌, ◌&&◌,
  not, leb, if◌then◌else◌, ℤ, pos, eqb, leb_ℤ, ltb_ℤ,
}
use course_infra.Text.{◌<>◌, has_prefix}
use course_infra.Errors.{
  GoError, Result, ok, err, new, wrap, sentinel, deadline_exceeded, is, api_not_found,
}
use course_infra.Effects.{
  Exec, pure, fail, lift, call, map_err, attempt, ◌>>=◌, ◌>>◌, either, refuse, for_each,
}
use course_infra.Effects.World.{World, Event, services, wait, check_context}
use course_infra.Catalog.{namespace}
use course_infra.Catalog.Images.{local_push_image_repository}
use course_infra.Cluster.{conflict_error, prerequisite_error}
use course_infra.Lab.{ComponentStatus, RuntimeStatus, Workload, workloads, endpoint_services}
use course_infra.Lab.Ownership.{get_object, verify_namespace, verify_resource_ownership, absent_or}
use course_infra.Lab.Endpoints.{verify_endpoint_service}
use course_infra.Lab.Redpanda.{verify_redpanda_resources}
use Prim.Native.Char.{code}

-- The part of `strings.Cut` behind the first `@`; `none` is not found.
abbrev behind_at : String → Option String
behind_at String.[] = none
behind_at (String.◌∷◌ c text) = if code c == b'@' then some text else behind_at text

abbrev or_empty : Option String → String
or_empty none = ""
or_empty (some text) = text

-- What `statusWith` keeps of one workload.
pub record Inspected : Type 0 where
  pub status : ComponentStatus
  pub is_stopped : Bool
  pub is_ready : Bool

abbrev pub all_stopped : List Inspected → Bool
all_stopped [] = true
all_stopped (i ∷ l) = i.is_stopped && all_stopped l

abbrev pub all_ready : List Inspected → Bool
all_ready [] = true
all_ready (i ∷ l) = i.is_ready && all_ready l

abbrev pub statuses : List Inspected → List ComponentStatus
statuses [] = []
statuses (i ∷ l) = i.status ∷ statuses l

-- The state at the end of `statusWith`.
unfoldable pub state_of : List Inspected → String
state_of l = if all_stopped l then "stopped" else if all_ready l then "ready" else "starting"

-- `readinessLimit` over the intervals of the two waits, and the round at the start.
abbrev pub readiness_rounds : ℕ
readiness_rounds = 601

abbrev pub deletion_rounds : ℕ
deletion_rounds = 1201

module _ (W : World) where
  abbrev first_image : List (Option W.Object) → String
  first_image [] = ""
  first_image (none ∷ rest) = ""
  first_image (some container ∷ rest) = W.nested_string container ("image" ∷ [])

  -- `workloadImageReference` and `deploymentImageReference`
  unfoldable pub workload_image_reference : W.Object → String
  workload_image_reference object =
      first_image (W.nested_objects object ("spec" ∷ "template" ∷ "spec" ∷ "containers" ∷ []))

  -- `workloadImageDigest`
  unfoldable pub workload_image_digest : W.Object → String
  unfolding workload_image_reference
  workload_image_digest object = or_empty (behind_at (workload_image_reference object))

  abbrev pub desired_of : W.Object → ℤ
  desired_of object = W.nested_int64 object ("spec" ∷ "replicas" ∷ [])

  -- `workloadReady`
  unfoldable pub workload_ready : W.Object → ℤ → Bool
  workload_ready object expected =
      eqb (desired_of object) expected
      && leb_ℤ (W.generation object) (W.nested_int64 object ("status" ∷ "observedGeneration" ∷ []))
      && eqb (W.nested_int64 object ("status" ∷ "updatedReplicas" ∷ [])) expected
      && eqb (W.nested_int64 object ("status" ∷ "readyReplicas" ∷ [])) expected
      && eqb (W.nested_int64 object ("status" ∷ "availableReplicas" ∷ [])) expected

  abbrev waited : Option GoError → Result (Unit {0})
  waited none = ok tt
  waited (some e) = err e

  -- `wait.PollUntilContextTimeout` that runs its condition at once.
  unfoldable pub poll : ℕ → Exec (Event W.Object) Bool → Exec (Event W.Object) (Unit {0})
  poll zero condition = fail (sentinel deadline_exceeded)
  poll (suc fuel) condition = do
    let next = poll fuel condition
    is_done ← condition
    if is_done then pure tt else (do call wait (λ t. waited (W.wait t)); next)

  -- `if err := ctx.Err(); err != nil { return false, err }`
  unfoldable pub check_alive : Exec (Event W.Object) (Unit {0})
  check_alive = call check_context (λ t. waited (W.context_error t))

  -- The loop over the workloads in `waitForWorkloads`: a failed read counts as not ready.
  unfoldable pub all_workloads_ready : String → ℤ → List Workload → Exec (Event W.Object) Bool
  unfolding get_object workload_ready check_alive
  all_workloads_ready namespace expected [] = pure true
  all_workloads_ready namespace expected (item ∷ items) = do
    let next = all_workloads_ready namespace expected items
    check_alive
    object ← attempt (get_object W item.resource namespace item.name)
    check_alive
    others ← next
    either object (λ o. pure (workload_ready o expected && others)) (λ e. pure false)

  -- The check between the reads and the report of a round.
  unfoldable pub check_report : Exec (Event W.Object) (Unit {0})
  check_report t = if W.is_reporting t then check_alive t else pure tt t

  -- One round of `waitForWorkloads`; the pods that a report reads, and its text, decide nothing.
  unfoldable pub readiness_round : String → ℤ → List Workload → Exec (Event W.Object) Bool
  unfolding all_workloads_ready check_report
  readiness_round namespace expected items = do
    is_ready ← all_workloads_ready namespace expected items
    check_report
    pure is_ready

  -- `waitForWorkloads`. Where the code knows of no workload that is not ready, it returns the error without
  -- the list; what the error is by `errors.Is` is the same.
  unfoldable pub wait_for_workloads : String → List Workload → ℤ → Exec (Event W.Object) (Unit {0})
  unfolding poll readiness_round
  wait_for_workloads namespace items expected =
      map_err (wrap "%w; not ready: %s")
        (poll readiness_rounds (readiness_round namespace expected items))

  -- The loop of `statusWith` over the endpoint services.
  unfoldable pub check_endpoints : ℕ → String → String → Exec (Event W.Object) (Unit {0})
  unfolding endpoint_services verify_endpoint_service get_object
  check_endpoints lab namespace cluster_id = for_each (endpoint_services lab) (λ expected. do
    service ←
        map_err
          (λ e.
            if is e api_not_found
            then prerequisite_error
                "%w: %s service is absent in %s; run tripgoctl environment start"
            else wrap "inspect %s service: %w" e)
          (get_object W services namespace expected.name)
    lift (verify_endpoint_service W lab namespace cluster_id expected service))

  -- The body of the loop of `statusWith` over the workloads.
  unfoldable pub inspect_workload : ℕ → String → String → Workload → Exec (Event W.Object) Inspected
  unfolding workload_ready workload_image_digest workload_image_reference verify_resource_ownership
  inspect_workload lab namespace cluster_id item = do
    object ← map_err (absent_or W "inspect %s: %w") (get_object W item.resource namespace item.name)
    lift (verify_resource_ownership W lab namespace cluster_id object)
    refuse (str_eq (workload_image_digest object) "")
        (conflict_error "%w: %s workload does not use an immutable image digest")
    refuse
        (str_eq item.name "push-service"
          && not (
              has_prefix (workload_image_reference object)
                (local_push_image_repository <> "@sha256:")))
        (conflict_error "%w: Push Service deployment is not pinned to the managed local repository")
    pure (record {
      status = record {
        name = item.name;
        desired = desired_of object;
        ready = W.nested_int64 object ("status" ∷ "readyReplicas" ∷ []);
        image_digest = workload_image_digest object;
      };
      is_stopped = eqb (desired_of object) (pos 0) && workload_ready object (pos 0);
      is_ready = ltb_ℤ (pos 0) (desired_of object) && workload_ready object (desired_of object);
    })

  -- That loop.
  unfoldable pub inspect_workloads :
      ℕ → String → String → List Workload → Exec (Event W.Object) (List Inspected)
  unfolding inspect_workload
  inspect_workloads lab namespace cluster_id [] = pure []
  inspect_workloads lab namespace cluster_id (item ∷ items) = do
    let next = inspect_workloads lab namespace cluster_id items
    first ← inspect_workload lab namespace cluster_id item
    rest ← next
    pure (first ∷ rest)

  -- `statusWith`, for the namespace that the catalog has for the lab.
  unfoldable pub status_in : ℕ → String → String → Exec (Event W.Object) RuntimeStatus
  status_in lab name cluster_id = do
    verify_namespace W lab name cluster_id
    check_endpoints lab name cluster_id
    if leb 4 lab then verify_redpanda_resources W lab name cluster_id else pure tt
    inspected ← inspect_workloads lab name cluster_id (workloads lab)
    pure (record {
      lab = lab;
      namespace = name;
      state = state_of inspected;
      components = statuses inspected;
    })

  -- `statusWith`
  unfoldable pub status_with : ℕ → String → Exec (Event W.Object) RuntimeStatus
  unfolding namespace
  status_with lab cluster_id = elim (namespace lab) [
    | none ↦ fail (new "unsupported lab %d")
    | some name ↦ status_in lab name cluster_id
  ]
