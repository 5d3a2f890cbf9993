-- ===== src/Generator/Write.antt =====
-- internal/generator/write.go: the directory `rendered` is replaced as a whole. The modes of files are
-- not modelled.
use course_infra.Base.{
  ℕ, String, Bool, true, false, List, [], ◌∷◌, ◌==◌, ◌&&◌, ◌||◌, not, str_eq, if◌then◌else◌,
}
use course_infra.Text.{◌<>◌, codes, bytes_have_prefix}
use course_infra.Errors.{new, wrap, is, not_exist}
use course_infra.Effects.{
  Exec, pure, fail, call, map_err, catch, attempt, finally, ignore, ◌>>=◌, ◌>>◌, either, refuse,
  for_each,
}
use course_infra.Effects.World.{
  World, Event, file_call, mkdir_all, mkdir_temp, write, rename, remove, remove_all,
}
use course_infra.Cluster.State.{change_file, read, temp_result}
use course_infra.Cluster.Downloader.{remove_if_there}
use course_infra.Generator.{File}
use course_infra.Lab.Files.{stat, if_there, is_plain_dir, is_plain_file}

-- `legacyLockMarker`
abbrev pub legacy_lock_marker : String
legacy_lock_marker = "# Generated by tripgoctl. Do not edit manually.\n"

abbrev has_slash : List ℕ → Bool
has_slash [] = false
has_slash (c ∷ cs) = c == b'/' || has_slash cs

-- Whether `filepath.Base(name) == name` and the name is not a dot; `Base` of the root is the root.
unfoldable pub is_base_name : String → Bool
is_base_name name =
    (not (has_slash (codes name)) || str_eq name "/")
    && not (str_eq name "")
    && not (str_eq name ".")

module _ (W : World) where
  -- `os.MkdirTemp`; the result is the path of the new directory.
  unfoldable pub new_temp_dir : String → Exec (Event W.Object) String
  new_temp_dir dir =
      call (file_call (mkdir_temp dir))
        (λ t. temp_result W (W.file_call t (mkdir_temp dir)) (W.temp_name t))

  -- `ensureOutputDirectory`
  unfoldable pub ensure_output_directory : String → Exec (Event W.Object) (Unit {0})
  unfolding stat change_file
  ensure_output_directory target = do
    info ← attempt (stat W target)
    either info
        (λ found.
          refuse (not (is_plain_dir found)) (new "generator: output path %q is not a directory"))
        (λ e.
          if is e not_exist
          then map_err (wrap "generator: create output directory: %w")
              (change_file W (mkdir_all target))
          else fail (wrap "generator: inspect output directory: %w" e))

  -- The loop over the files.
  unfoldable pub write_files : String → List File → Exec (Event W.Object) (Unit {0})
  unfolding change_file is_base_name
  write_files dir files = for_each files (λ file. do
    refuse (not (is_base_name file.name)) (new "generator: invalid rendered filename %q")
    map_err (wrap "generator: write %s: %w")
        (change_file W (write (dir <> "/" <> file.name) file.content)))

  -- The previous directory becomes the backup; the result is whether there was one.
  unfoldable pub preserve_rendered : String → String → Exec (Event W.Object) Bool
  unfolding stat change_file
  preserve_rendered rendered backup = do
    info ← attempt (stat W rendered)
    either info
        (λ found. do
          refuse (not (is_plain_dir found)) (new "generator: rendered path %q is not a directory")
          map_err (wrap "generator: preserve previous rendered output: %w")
              (change_file W (rename rendered backup))
          pure true)
        (λ e.
          if is e not_exist
          then pure false
          else fail (wrap "generator: inspect rendered output: %w" e))

  -- `removeLegacyLock` of the generator.
  unfoldable pub remove_old_lock : String → Exec (Event W.Object) (Unit {0})
  unfolding if_there read remove_if_there
  remove_old_lock path =
      if_there W path (wrap "generator: inspect legacy environment.lock: %w") (λ info.
        if is_plain_file info
        then (do
          content ← map_err (wrap "generator: read legacy environment.lock: %w") (read W path)
          if bytes_have_prefix content legacy_lock_marker
              then remove_if_there W (wrap "generator: remove legacy environment.lock: %w") path
              else pure tt)
        else pure tt)

  -- The new directory takes its place; where it cannot, the backup is put back.
  unfoldable pub install_rendered :
      String → String → String → Bool → Exec (Event W.Object) (Unit {0})
  unfolding change_file
  install_rendered temporary rendered backup existed = do
    catch (change_file W (rename temporary rendered)) (λ e. do
      if existed then ignore (change_file W (rename backup rendered)) else pure tt
      fail (wrap "generator: install rendered output: %w" e))
    if existed
        then map_err (wrap "generator: remove previous rendered output: %w")
            (change_file W (remove_all backup))
        else pure tt

  -- `Write` from the reservation of the backup's name.
  unfoldable pub swap_rendered : String → String → Exec (Event W.Object) (Unit {0})
  unfolding new_temp_dir preserve_rendered install_rendered remove_old_lock
  swap_rendered target temporary = do
    backup ← map_err (wrap "generator: reserve rendered backup: %w") (new_temp_dir target)
    map_err (wrap "generator: prepare rendered backup: %w") (change_file W (remove backup))
    finally
        (do
          existed ← preserve_rendered (target <> "/rendered") backup
          install_rendered temporary (target <> "/rendered") backup existed
          remove_old_lock (target <> "/environment.lock"))
        (ignore (change_file W (remove_all backup)))

  -- `Write`
  unfoldable pub write_bundle : String → List File → Exec (Event W.Object) (Unit {0})
  unfolding ensure_output_directory new_temp_dir write_files swap_rendered
  write_bundle target files = do
    refuse (str_eq target "") (new "generator: output directory is required")
    ensure_output_directory target
    temporary ←
        map_err (wrap "generator: create temporary rendered directory: %w") (new_temp_dir target)
    finally (do write_files temporary files; swap_rendered target temporary)
        (ignore (change_file W (remove_all temporary)))
