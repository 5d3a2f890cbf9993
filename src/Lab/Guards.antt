-- ===== src/Lab/Guards.antt =====
-- internal/lab/service.go: the changes that an operation on an environment makes.
use course_infra.Base.{◌≡◌, refl, ℕ, String, [], ◌∷◌, if◌then◌else◌}
use course_infra.Effects.World.{
  World, Trace, get, list, lstat, read_file, read_dir, wait, check_context,
}
use course_infra.Cluster.Locking.{IsLocked, IsUnlocked, is_change}
use course_infra.Lab.Reads.{IsReadable, status_with-Keeps}
use course_infra.Lab.Readiness.{status_with}

module _ (W : World) where
  -- The calls of a history that may change something, the last one first.
  abbrev pub changes : Trace W → Trace W
  changes [] = []
  changes (e ∷ t) = if is_change e then e ∷ changes t else changes t

  changes_IsReadable : (l : Trace W) → IsReadable W (λ t. changes t ≡ l)
  changes_IsReadable l (get kind place name) r t h = h
  changes_IsReadable l (list kind place selector) r t h = h
  changes_IsReadable l (lstat path) r t h = h
  changes_IsReadable l (read_file path) r t h = h
  changes_IsReadable l (read_dir path) r t h = h
  changes_IsReadable l wait r t h = h
  changes_IsReadable l check_context r t h = h
  changes_IsReadable l _ r t h = cc

  -- Inspecting an environment makes no call that may change anything, whatever the world answers: the
  -- history's changes are the same before and after it.
  pub status_with-changes :
      (lab : ℕ) (cluster_id : String) (t : Trace W)
      → changes (status_with W lab cluster_id t).1 ≡ changes t
  status_with-changes lab cluster_id t =
      (status_with-Keeps W (λ u. changes u ≡ changes t) (changes_IsReadable (changes t)) lab
          cluster_id).at
        t refl

  pub IsLocked-IsReadable : IsReadable W (IsLocked W)
  IsLocked-IsReadable (get kind place name) r t h = h
  IsLocked-IsReadable (list kind place selector) r t h = h
  IsLocked-IsReadable (lstat path) r t h = h
  IsLocked-IsReadable (read_file path) r t h = h
  IsLocked-IsReadable (read_dir path) r t h = h
  IsLocked-IsReadable wait r t h = h
  IsLocked-IsReadable check_context r t h = h
  IsLocked-IsReadable _ r t h = cc

  pub IsUnlocked-IsReadable : IsReadable W (IsUnlocked W)
  IsUnlocked-IsReadable (get kind place name) r t h = h
  IsUnlocked-IsReadable (list kind place selector) r t h = h
  IsUnlocked-IsReadable (lstat path) r t h = h
  IsUnlocked-IsReadable (read_file path) r t h = h
  IsUnlocked-IsReadable (read_dir path) r t h = h
  IsUnlocked-IsReadable wait r t h = h
  IsUnlocked-IsReadable check_context r t h = h
  IsUnlocked-IsReadable _ r t h = cc
