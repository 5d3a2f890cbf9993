-- ===== src/Lab/Listing/Reading.antt =====
-- internal/lab/service.go: `List` makes no call that changes anything but the lock.
use course_infra.Base.{ℕ, String, List, [], ◌∷◌, inl, inr, Option-cases}
use course_infra.Effects.Keeps.{Keeps, Keeps-bind, Keeps-pure, keeps_rules}
use course_infra.Effects.World.{World, Trace}
use course_infra.Cluster.{Service}
use course_infra.Cluster.State.{Codec}
use course_infra.Cluster.Lease.{EnvironmentLease}
use course_infra.Cluster.Locking.{IsLocked, IsUnlocked}
use course_infra.Lab.Reads.{IsReadable, status_with-Keeps, list-Keeps}
use course_infra.Lab.Guards.{IsLocked-IsReadable}
use course_infra.Lab.Release.{with_client-IsUnlocked}
use course_infra.Lab.Listing.{lab_of, entry_status, list_statuses, list_with, list_environments}

module _ (W : World) where
  module _ (P : Trace W → Type 0) (reads : IsReadable W P) where
    entry_status-Keeps :
        (cluster_id name : String) (lab : ℕ) → Keeps P (entry_status W cluster_id name lab)
    unfolding entry_status
    entry_status-Keeps cluster_id name lab =
        search (keeps_rules, status_with-Keeps W P reads) depth 20

    list_statuses-Keeps :
        (cluster_id : String) (objects : List W.Object)
        → Keeps P (list_statuses W cluster_id objects)
    unfolding list_statuses
    list_statuses-Keeps cluster_id [] = Keeps-pure []
    list_statuses-Keeps cluster_id (object ∷ objects) =
        elim (Option-cases (lab_of W cluster_id object)) [
          | inl e ↦ rw (list_statuses, e) (list_statuses-Keeps cluster_id objects)
          | inr (lab, e) ↦
              rw (list_statuses, e)
                (Keeps-bind _ _ (entry_status-Keeps cluster_id (W.name object) lab) (λ status.
                  Keeps-bind _ _ (list_statuses-Keeps cluster_id objects)
                    (λ statuses. Keeps-pure (status ∷ statuses))))
        ]

    pub list_with-Keeps : (lease : EnvironmentLease) → Keeps P (list_with W lease)
    unfolding list_with
    list_with-Keeps lease = search (keeps_rules, list-Keeps W P reads, list_statuses-Keeps) depth 20

  -- From a history in which the operation lock is free, `List` leads to such a history again.
  pub list_environments-IsUnlocked :
      (json : Codec) (s : Service) → Keeps (IsUnlocked W) (list_environments W json s)
  unfolding list_environments
  list_environments-IsUnlocked json s =
      with_client-IsUnlocked W json s _ (list_with-Keeps (IsLocked W) (IsLocked-IsReadable W))
