-- ===== src/Lab/Outputs.antt =====
-- internal/lab/service.go and internal/generator/write.go: the local files are written under the lock.
use course_infra.Base.{refl, ℕ, String, Bool, List}
use course_infra.Errors.{GoError}
use course_infra.Effects.{Exec}
use course_infra.Effects.Keeps.{Keeps, keeps_rules}
use course_infra.Effects.World.{World, Event, FileInfo}
use course_infra.Config.{Config}
use course_infra.Cluster.Locking.{IsLocked, IsLocked-call}
use course_infra.Cluster.Locking.Steps.{change_file-IsLocked, read-IsLocked, new_temp-IsLocked}
use course_infra.Cluster.Locking.Downloads.{remove_if_there-IsLocked}
use course_infra.Generator.{File}
use course_infra.Generator.Write.{
  new_temp_dir, ensure_output_directory, write_files, preserve_rendered, install_rendered,
  swap_rendered, remove_old_lock, write_bundle,
}
use course_infra.Lab.Files.{
  stat, if_there, ensure_env_writable, ensure_tripgo_writable, atomic_write, write_env,
}
use course_infra.Lab.Guards.{IsLocked-IsReadable}
use course_infra.Lab.Reads.{stat-Keeps, if_there-Keeps}

module _ (W : World) where
  IsLocked-stat : (path : String) → Keeps (IsLocked W) (stat W path)
  IsLocked-stat = stat-Keeps W (IsLocked W) (IsLocked-IsReadable W)

  IsLocked-if_there :
      (path : String) (context : GoError → GoError)
      (k : FileInfo → Exec (Event W.Object) (Unit {0}))
      → ((info : FileInfo) → Keeps (IsLocked W) (k info))
      → Keeps (IsLocked W) (if_there W path context k)
  IsLocked-if_there = if_there-Keeps W (IsLocked W) (IsLocked-IsReadable W)

  new_temp_dir-IsLocked : (dir : String) → Keeps (IsLocked W) (new_temp_dir W dir)
  unfolding new_temp_dir
  new_temp_dir-IsLocked dir = IsLocked-call W _ _ refl

  ruleset output_rules = (
    keeps_rules, IsLocked-stat, IsLocked-if_there, new_temp_dir-IsLocked, new_temp-IsLocked,
    read-IsLocked, change_file-IsLocked, remove_if_there-IsLocked,
  )

  ensure_output-IsLocked : (target : String) → Keeps (IsLocked W) (ensure_output_directory W target)
  unfolding ensure_output_directory
  ensure_output-IsLocked target = search (output_rules) depth 20

  write_files-IsLocked :
      (dir : String) (files : List File) → Keeps (IsLocked W) (write_files W dir files)
  unfolding write_files
  write_files-IsLocked dir files = search (output_rules) depth 20

  preserve-IsLocked :
      (rendered backup : String) → Keeps (IsLocked W) (preserve_rendered W rendered backup)
  unfolding preserve_rendered
  preserve-IsLocked rendered backup = search (output_rules) depth 20

  install-IsLocked :
      (temporary rendered backup : String) (existed : Bool)
      → Keeps (IsLocked W) (install_rendered W temporary rendered backup existed)
  unfolding install_rendered
  install-IsLocked temporary rendered backup existed = search (output_rules) depth 20

  remove_old_lock-IsLocked : (path : String) → Keeps (IsLocked W) (remove_old_lock W path)
  unfolding remove_old_lock
  remove_old_lock-IsLocked path = search (output_rules) depth 20

  swap-IsLocked :
      (target temporary : String) → Keeps (IsLocked W) (swap_rendered W target temporary)
  unfolding swap_rendered
  swap-IsLocked target temporary =
      search (output_rules, preserve-IsLocked, install-IsLocked, remove_old_lock-IsLocked) depth 20

  pub write_bundle-IsLocked :
      (target : String) (files : List File) → Keeps (IsLocked W) (write_bundle W target files)
  unfolding write_bundle
  write_bundle-IsLocked target files =
      search (output_rules, ensure_output-IsLocked, write_files-IsLocked, swap-IsLocked) depth 20

  pub ensure_env-IsLocked : (path : String) → Keeps (IsLocked W) (ensure_env_writable W path)
  unfolding ensure_env_writable
  ensure_env-IsLocked path = search (output_rules) depth 20

  pub ensure_tripgo-IsLocked : (path : String) → Keeps (IsLocked W) (ensure_tripgo_writable W path)
  unfolding ensure_tripgo_writable
  ensure_tripgo-IsLocked path = search (output_rules) depth 20

  atomic_write-IsLocked :
      (dir path : String) (content : List ℕ) → Keeps (IsLocked W) (atomic_write W dir path content)
  unfolding atomic_write
  atomic_write-IsLocked dir path content = search (output_rules) depth 24

  pub write_env-IsLocked :
      (dir : String) (config : Config) (version : String)
      → Keeps (IsLocked W) (write_env W dir config version)
  unfolding write_env
  write_env-IsLocked dir config version =
      search (output_rules, ensure_env-IsLocked, atomic_write-IsLocked) depth 20
