-- ===== src/Cluster/Locking/Downloads.antt =====
-- internal/cluster/downloader.go: fetching kind leaves the lock as it is.
use course_infra.Base.{String, List, refl, ℕ}
use course_infra.Errors.{GoError}
use course_infra.Effects.Keeps.{Keeps, keeps_rules}
use course_infra.Effects.World.{World, download}
use course_infra.Cluster.{Service}
use course_infra.Cluster.Downloader.{
  valid_file, remove_if_there, install_kind, fetch_kind, ensure_kind,
}
use course_infra.Cluster.Locking.{IsLocked, IsLocked-call}
use course_infra.Cluster.Locking.Steps.{change_file-IsLocked, read-IsLocked, new_temp-IsLocked}

module _ (W : World) where
  pub valid_file-IsLocked :
      (path expected : String) → Keeps (IsLocked W) (valid_file W path expected)
  unfolding valid_file
  valid_file-IsLocked path expected = search (keeps_rules, read-IsLocked)

  pub remove_if_there-IsLocked :
      (context : GoError → GoError) (path : String)
      → Keeps (IsLocked W) (remove_if_there W context path)
  unfolding remove_if_there
  remove_if_there-IsLocked context path = search (keeps_rules, change_file-IsLocked) depth 20

  pub install_kind-IsLocked :
      (s : Service) (expected : String) (body : List ℕ)
      → Keeps (IsLocked W) (install_kind W s expected body)
  unfolding install_kind
  install_kind-IsLocked s expected body =
      search (keeps_rules, change_file-IsLocked, new_temp-IsLocked) depth 20

  pub fetch_kind-IsLocked :
      (s : Service) (expected : String) → Keeps (IsLocked W) (fetch_kind W s expected)
  unfolding fetch_kind
  fetch_kind-IsLocked s expected =
      search
        (
          keeps_rules,
          change_file-IsLocked,
          remove_if_there-IsLocked,
          install_kind-IsLocked,
          IsLocked-call W (download _) _ refl,
        )
        depth 20

  pub ensure_kind-IsLocked : (s : Service) → Keeps (IsLocked W) (ensure_kind W s)
  unfolding ensure_kind
  ensure_kind-IsLocked s = search (keeps_rules, valid_file-IsLocked, fetch_kind-IsLocked) depth 20
