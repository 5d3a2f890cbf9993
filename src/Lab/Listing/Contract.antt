-- ===== src/Lab/Listing/Contract.antt =====
-- internal/lab/service.go: what `List` returns.
use mathlib.Core.List.{Permᴰ}
use course_infra.Base.{
  ◌≡◌, refl, sym, subst, ap, ◌∙◌, ℕ, String, Option, none, some, List, [], ◌∷◌, inl, inr, arith,
  Bool-cases, Option-cases, str_eq, not, ◌||◌, map, if◌then◌else◌,
}
use course_infra.Errors.{Result-cases, ok, is, prerequisite, conflict, ok-injective}
use course_infra.Effects.{pure, fail, finally, attempt, either, map_err, call, ◌>>=◌}
use course_infra.Effects.Results.{IsContinued-bind, rethrow-ok}
use course_infra.Effects.World.{World, Trace, namespaces}
use course_infra.Catalog.{namespace}
use course_infra.Cluster.{Service}
use course_infra.Cluster.State.{Codec}
use course_infra.Cluster.Lease.{EnvironmentLease, begin_environment_operation}
use course_infra.Lab.{RuntimeStatus}
use course_infra.Lab.Readiness.{status_with, status_in}
use course_infra.Lab.Operations.{with_client, namespace_of}
use course_infra.Lab.Listing.{
  selector, lab_of, entry_status, list_statuses, list_with, list_environments,
}
use course_infra.Lab.Listing.Order.{entry, IsOrdered, sort_statuses-perm, sort_statuses-IsOrdered}
use course_infra.Lab.Listing.Names.{
  named, all_labs, namespace_of-some, lab_from_namespace-some, lab_from_namespace-named,
}

module _ (W : World) where
  -- The environment that a namespace stands for: it is of this cluster and has the name of a lab's
  -- namespace.
  abbrev pub owned_lab : String → W.Object → Option ℕ
  owned_lab cluster_id object =
      if str_eq (W.annotation object "tripgo.course/cluster-id") cluster_id
      then named all_labs (W.name object)
      else none

  -- The environments that the namespaces of an answer stand for.
  abbrev pub owned : String → List W.Object → List (ℕ × String)
  owned cluster_id [] = []
  owned cluster_id (object ∷ objects) = elim (owned_lab cluster_id object) [
    | none ↦ owned cluster_id objects
    | some lab ↦ (lab, W.name object) ∷ owned cluster_id objects
  ]

  lab_of-owned :
      (cluster_id : String) (object : W.Object)
      → lab_of W cluster_id object ≡ owned_lab cluster_id object
  unfolding lab_of
  lab_of-owned cluster_id object =
      elim (Bool-cases (str_eq (W.annotation object "tripgo.course/cluster-id") cluster_id)) [
        | inl e ↦ rw (lab_of, owned_lab, e) (lab_from_namespace-named (W.name object))
        | inr e ↦ rw (lab_of, owned_lab, e) refl
      ]

  lab_of-some :
      (cluster_id : String) (object : W.Object) (lab : ℕ)
      → lab_of W cluster_id object ≡ some lab
      → namespace_of lab ≡ W.name object
  unfolding lab_of
  lab_of-some cluster_id object lab h =
      elim (Bool-cases (not (str_eq (W.annotation object "tripgo.course/cluster-id") cluster_id))) [
        | inl e ↦ absurd (ground (arith, rw (lab_of, e) at h))
        | inr e ↦ (lab_from_namespace-some (W.name object) lab (rw (lab_of, e) at h)).2
      ]

  status_in-entry :
      (lab : ℕ) (name cluster_id : String) (status : RuntimeStatus) (t : Trace W)
      → (status_in W lab name cluster_id t).0 ≡ ok status
      → entry status ≡ (lab, name)
  unfolding status_in pure
  status_in-entry lab name cluster_id status t h =
      let verified = IsContinued-bind _ _ status t h in
      let checked = IsContinued-bind _ _ status _ verified.second in
      let broker = IsContinued-bind _ _ status _ checked.second in
      let inspected = IsContinued-bind _ _ status _ broker.second in
      ap entry (sym (ok-injective inspected.second))

  status_with-entry :
      (lab : ℕ) (cluster_id : String) (status : RuntimeStatus) (t : Trace W)
      → (status_with W lab cluster_id t).0 ≡ ok status
      → entry status ≡ (lab, namespace_of lab)
  unfolding status_with fail
  status_with-entry lab cluster_id status t h = elim (Option-cases (namespace lab)) [
    | inl e ↦ absurd (ground (arith, rw (status_with, e) at h))
    | inr (name, e) ↦
        status_in-entry lab name cluster_id status t (rw (status_with, e) at h)
        ∙ ap (λ n. (lab, n)) (sym (namespace_of-some lab name e))
  ]

  entry_status-entry :
      (cluster_id name : String) (lab : ℕ) (status : RuntimeStatus) (t : Trace W)
      → namespace_of lab ≡ name
      → (entry_status W cluster_id name lab t).0 ≡ ok status
      → entry status ≡ (lab, name)
  unfolding entry_status either pure fail attempt ◌>>=◌
  entry_status-entry cluster_id name lab status t same h =
      elim (Result-cases (status_with W lab cluster_id t).0) [
        | inl (current, e) ↦
            let here : current ≡ status = ok-injective (rw (entry_status, e) at h) in
            ap entry (sym here)
            ∙ status_with-entry lab cluster_id current t e
            ∙ ap (λ n. (lab, n)) same
        | inr (x, e) ↦ elim (Bool-cases (is x prerequisite || is x conflict)) [
          | inl f ↦ ap entry (sym (ok-injective (rw (entry_status, e, f) at h)))
          | inr f ↦ absurd (ground (arith, rw (entry_status, e, f) at h))
        ]
      ]

  list_statuses-owned :
      (cluster_id : String) (objects : List W.Object) (statuses : List RuntimeStatus) (t : Trace W)
      → (list_statuses W cluster_id objects t).0 ≡ ok statuses
      → map entry statuses ≡ owned cluster_id objects
  unfolding list_statuses pure
  list_statuses-owned cluster_id [] statuses t h = ap (map entry) (sym (ok-injective h))
  list_statuses-owned cluster_id (object ∷ objects) statuses t h =
      elim (Option-cases (lab_of W cluster_id object)) [
        | inl e ↦
            rw (owned, sym (lab_of-owned cluster_id object) ∙ e)
              (list_statuses-owned cluster_id objects statuses t (rw (list_statuses, e) at h))
        | inr (lab, e) ↦
            let first = IsContinued-bind _ _ statuses t (rw (list_statuses, e) at h) in
            let others = IsContinued-bind _ _ statuses _ first.second in
            let one =
              entry_status-entry cluster_id (W.name object) lab first.value t
                (lab_of-some cluster_id object lab e) first.first in
            let more = list_statuses-owned cluster_id objects others.value _ others.first in
            rw (owned, sym (lab_of-owned cluster_id object) ∙ e)
              (ap (map entry) (sym (ok-injective others.second)) ∙ rw (one, more) refl)
      ]

  -- What `List` has asked and returns: its answer came from the Kubernetes API under a lease of this
  -- cluster, has the environments of the answer and no others, and is in the order of the labs.
  pub record IsListed (json : Codec) (s : Service) (t : Trace W) (statuses : List RuntimeStatus)
      : Type 0 where
    pub lease : EnvironmentLease
    pub history : Trace W
    pub objects : List W.Object
    pub leased : (begin_environment_operation W json s t).0 ≡ ok lease
    pub answered : W.list history namespaces "" selector ≡ ok objects
    pub same : Permᴰ (map entry statuses) (owned lease.cluster_id objects)
    pub ordered : IsOrdered statuses

  -- A list of environments that `List` returns has one entry, with its lab and its namespace, for each
  -- namespace of the API's answer that carries the identity of the leased cluster and is the namespace
  -- of a lab, whether or not the environment in it is complete; it has no other entries, and they are
  -- in the order of the labs.
  pub list_environments-IsListed :
      (json : Codec) (s : Service) (statuses : List RuntimeStatus) (t : Trace W)
      → (list_environments W json s t).0 ≡ ok statuses
      → IsListed json s t statuses
  unfolding list_environments with_client list_with finally pure map_err call
  list_environments-IsListed json s statuses t h =
      let leased = IsContinued-bind _ _ statuses t h in
      let client = IsContinued-bind _ _ statuses _ leased.second in
      let listed = IsContinued-bind _ _ statuses _ client.second in
      let found = IsContinued-bind _ _ statuses _ listed.second in
      let lease = leased.value in
      let same = list_statuses-owned lease.cluster_id listed.value found.value _ found.first in
      let sorted = ok-injective found.second in
      record {
        lease = lease;
        history = _;
        objects = listed.value;
        leased = leased.first;
        answered = rethrow-ok _ _ listed.value listed.first;
        same =
            subst (λ l. Permᴰ (map entry statuses) l) same
              (subst (λ l. Permᴰ (map entry l) (map entry found.value)) sorted
                (sort_statuses-perm found.value));
        ordered = subst IsOrdered sorted (sort_statuses-IsOrdered found.value);
      }
