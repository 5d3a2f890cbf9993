-- ===== src/Lab/Listing.antt =====
-- internal/lab/service.go: `List` and `ConfiguredLab`.
pub mod Order
pub mod Names
pub mod Contract
pub mod Reading
use course_infra.Base.{
  ℕ, ◌+◌, ◌-◌, ◌*◌, String, Bool, true, false, Option, none, some, List, [], ◌∷◌, str_eq, leb, ltb,
  ◌==◌, ◌&&◌, ◌||◌, not, pos, map, if◌then◌else◌,
}
use course_infra.Text.{codes}
use course_infra.Errors.{wrap, is, prerequisite, conflict}
use course_infra.Effects.{Exec, pure, fail, call, map_err, attempt, ◌>>=◌, either}
use course_infra.Effects.World.{World, Event, namespaces, list}
use course_infra.Config.{Config, Decoded}
use course_infra.Cluster.{Service}
use course_infra.Cluster.State.{Codec}
use course_infra.Cluster.Lease.{EnvironmentLease}
use course_infra.Lab.{RuntimeStatus, ComponentStatus, workloads}
use course_infra.Lab.Readiness.{status_with}
use course_infra.Lab.Operations.{load_current_config, with_client, namespace_of}

abbrev is_digit : ℕ → Bool
is_digit c = leb b'0' c && leb c b'9'

-- `%02d` of `Sscanf`: one or two digits. It takes a sign too, which no namespace of the catalog has.
abbrev scan_digits : List ℕ → Option ℕ
scan_digits [] = none
scan_digits (x ∷ []) = if is_digit x then some (x - b'0') else none
scan_digits (x ∷ y ∷ rest) =
    if is_digit x
    then (if is_digit y then some (10 * (x - b'0') + (y - b'0')) else some (x - b'0'))
    else none

-- `Sscanf`, behind a text that has to be there.
abbrev scan_after : List ℕ → List ℕ → Option ℕ
scan_after [] text = scan_digits text
scan_after (x ∷ prefix) [] = none
scan_after (x ∷ prefix) (y ∷ text) =
    let rest = scan_after prefix text in if x == y then rest else none

-- The `Sscanf` of `labFromNamespace`.
unfoldable pub scan_lab : String → Option ℕ
scan_lab name = scan_after (codes "tripgo-lab-") (codes name)

-- The tests of `labFromNamespace`.
unfoldable pub accepted_lab : String → ℕ → Option ℕ
accepted_lab name lab =
    if ltb lab 1 || ltb 5 lab
    then none
    else if str_eq (namespace_of lab) name
    then some lab
    else none

-- `labFromNamespace`
unfoldable pub lab_from_namespace : String → Option ℕ
unfolding scan_lab accepted_lab
lab_from_namespace name = elim (scan_lab name) [ none ↦ none | some lab ↦ accepted_lab name lab ]

-- What `List` shows of an environment that is not complete.
abbrev pub degraded : ℕ → String → RuntimeStatus
degraded lab name = record {
  lab = lab;
  namespace = name;
  state = "degraded";
  components =
      map (λ w. record { name = w.name; desired = pos 0; ready = pos 0; image_digest = "" })
        (workloads lab);
}

-- `sort.Slice` by the lab: no two namespaces have one name, so no two entries have one lab.
unfoldable pub insert_status : RuntimeStatus → List RuntimeStatus → List RuntimeStatus
insert_status status [] = status ∷ []
insert_status status (other ∷ others) =
    if leb status.lab other.lab
    then status ∷ other ∷ others
    else other ∷ insert_status status others

unfoldable pub sort_statuses : List RuntimeStatus → List RuntimeStatus
unfolding insert_status
sort_statuses [] = []
sort_statuses (status ∷ statuses) = insert_status status (sort_statuses statuses)

-- The label selector of `List`.
abbrev pub selector : String
selector = "app.kubernetes.io/managed-by=tripgoctl,app.kubernetes.io/part-of=tripgo-local"

module _ (W : World) where
  -- The environment that a namespace of the answer stands for, if it is one of this cluster.
  unfoldable pub lab_of : String → W.Object → Option ℕ
  unfolding lab_from_namespace
  lab_of cluster_id object =
      if not (str_eq (W.annotation object "tripgo.course/cluster-id") cluster_id)
      then none
      else lab_from_namespace (W.name object)

  -- The entry of one environment.
  unfoldable pub entry_status : String → String → ℕ → Exec (Event W.Object) RuntimeStatus
  unfolding status_with
  entry_status cluster_id name lab = do
    current ← attempt (status_with W lab cluster_id)
    either current pure
        (λ e. if is e prerequisite || is e conflict then pure (degraded lab name) else fail e)

  -- The loop of `List`.
  unfoldable pub list_statuses : String → List W.Object → Exec (Event W.Object) (List RuntimeStatus)
  unfolding lab_of entry_status
  list_statuses cluster_id [] = pure []
  list_statuses cluster_id (object ∷ objects) =
      let rest = list_statuses cluster_id objects in
      elim (lab_of cluster_id object) [
        | none ↦ rest
        | some lab ↦ (do
          status ← entry_status cluster_id (W.name object) lab
          statuses ← rest
          pure (status ∷ statuses))
      ]

  -- `List` with the lease.
  unfoldable pub list_with : EnvironmentLease → Exec (Event W.Object) (List RuntimeStatus)
  unfolding list_statuses sort_statuses
  list_with lease = do
    objects ←
        map_err (wrap "list environments: %w")
          (call (list namespaces "" selector) (λ t. W.list t namespaces "" selector))
    statuses ← list_statuses lease.cluster_id objects
    pure (sort_statuses statuses)

  -- `List`
  unfoldable pub list_environments : Codec → Service → Exec (Event W.Object) (List RuntimeStatus)
  unfolding with_client list_with
  list_environments json s = with_client W json s list_with

  -- `ConfiguredLab`
  unfoldable pub configured_lab : (List ℕ → Decoded) → String → Exec (Event W.Object) ℕ
  unfolding load_current_config
  configured_lab decode cwd = do config ← load_current_config W decode cwd; pure config.lab
