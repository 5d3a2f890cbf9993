-- ===== src/Lab/Files.antt =====
-- internal/lab/service.go: the files in the project directory. Opening a file and reading its first
-- line is one read; the modes of files are not modelled.
pub mod Marker
use course_infra.Base.{
  ℕ, String, Bool, true, false, List, [], ◌∷◌, ◌++◌, ◌==◌, ◌&&◌, ◌||◌, not, str_eq, if◌then◌else◌,
}
use course_infra.Text.{◌<>◌, codes, itoa, bytes_have_prefix}
use course_infra.Errors.{GoError, Result, ok, err, wrap, is, not_exist}
use course_infra.Effects.{
  Exec, pure, fail, lift, call, map_err, catch, attempt, finally, ignore, ◌>>=◌, ◌>>◌, either,
  refuse,
}
use course_infra.Effects.World.{
  World, Event, FileInfo, lstat, read_dir, mkdir_all, chmod, write, sync, close, rename, remove,
  remove_all, open_dir,
}
use course_infra.Catalog.Environment.{EnvVariable}
use course_infra.Config.{Config, environment_variables, is_empty}
use course_infra.Cluster.{conflict_error}
use course_infra.Cluster.State.{change_file, read, new_temp}
use course_infra.Cluster.Downloader.{remove_if_there}
use course_infra.Lab.{env_marker}

-- `strings.TrimSuffix(line, "\n")` for the line that `ReadString('\n')` returns.
abbrev pub first_line : List ℕ → List ℕ
first_line [] = []
first_line (b ∷ bytes) = if b == b'\n' then [] else b ∷ first_line bytes

abbrev pub bytes_equal : List ℕ → List ℕ → Bool
bytes_equal [] [] = true
bytes_equal (a ∷ l) (b ∷ m) = (a == b) && bytes_equal l m
bytes_equal [] (b ∷ m) = false
bytes_equal (a ∷ l) [] = false

-- Whether a file starts with the line that marks what tripgoctl generated.
unfoldable pub has_marker : List ℕ → Bool
has_marker bytes = bytes_equal (first_line bytes) (codes env_marker)

abbrev pub is_plain_dir : FileInfo → Bool
is_plain_dir info = not info.is_symlink && info.is_dir

abbrev pub is_plain_file : FileInfo → Bool
is_plain_file info = not info.is_symlink && info.is_regular

-- The lines of `writeEnv` for the variables.
abbrev assignments : List EnvVariable → String
assignments [] = ""
assignments (v ∷ vs) = v.name <> "=" <> v.value <> "\n" <> assignments vs

-- The content that `writeEnv` writes.
unfoldable pub env_content : Config → String → String
unfolding itoa
env_content config version =
    env_marker
    <> "\n# Source: environment.toml\n# Lab: "
    <> itoa config.lab
    <> "\n# Generator: tripgoctl "
    <> version
    <> "\n"
    <> assignments (environment_variables config)

module _ (W : World) where
  -- `os.Lstat`
  unfoldable pub stat : String → Exec (Event W.Object) FileInfo
  stat path = call (lstat path) (λ t. W.lstat t path)

  -- `os.Lstat` where a path that is not there ends the caller with success.
  unfoldable pub if_there :
      String
      → (GoError → GoError)
      → (FileInfo → Exec (Event W.Object) (Unit {0}))
      → Exec (Event W.Object) (Unit {0})
  unfolding stat
  if_there path context k = do
    info ← attempt (stat path)
    either info k (λ e. if is e not_exist then pure tt else fail (context e))

  -- `ensureEnvWritable`
  unfoldable pub ensure_env_writable : String → Exec (Event W.Object) (Unit {0})
  unfolding if_there read has_marker
  ensure_env_writable path = if_there path (wrap "inspect .env: %w") (λ info. do
    refuse (not (is_plain_file info)) (
        conflict_error "%w: existing .env is not a regular generated file; move it aside and retry")
    bytes ← map_err (wrap "inspect .env: %w") (read W path)
    refuse (not (has_marker bytes)) (
        conflict_error
          "%w: existing .env is not generated by tripgoctl; move it aside and run tripgoctl environment start again"))

  -- `ensureTripgoWritable`
  unfoldable pub ensure_tripgo_writable : String → Exec (Event W.Object) (Unit {0})
  unfolding if_there
  ensure_tripgo_writable path = if_there path (wrap "inspect .tripgo: %w") (λ info. do
    refuse (not (is_plain_dir info))
        (conflict_error "%w: existing .tripgo is not a directory; move it aside and retry")
    if_there (path <> "/rendered") (wrap "inspect .tripgo/rendered: %w") (λ rendered.
        refuse (not (is_plain_dir rendered)) (
          conflict_error
            "%w: existing .tripgo/rendered is not a directory; move it aside and retry")))

  -- `atomicWrite` to a path in the directory.
  unfoldable pub atomic_write : String → String → List ℕ → Exec (Event W.Object) (Unit {0})
  unfolding change_file new_temp
  atomic_write dir path content = do
    change_file W (mkdir_all dir)
    temporary ← map_err (wrap "create temporary .env: %w") (new_temp W dir)
    finally
        (finally
          (do
            change_file W (chmod temporary)
            change_file W (write temporary content)
            change_file W (sync temporary)
            change_file W (close temporary)
            map_err (wrap "install .env: %w") (change_file W (rename temporary path))
            map_err (wrap "open .env directory for sync: %w") (change_file W (open_dir dir))
            finally (map_err (wrap "sync .env directory: %w") (change_file W (sync dir)))
                (ignore (change_file W (close dir))))
          (ignore (change_file W (close temporary))))
        (ignore (change_file W (remove temporary)))

  -- `writeEnv`
  unfoldable pub write_env : String → Config → String → Exec (Event W.Object) (Unit {0})
  unfolding ensure_env_writable atomic_write env_content
  write_env dir config version = do
    ensure_env_writable (dir <> "/.env")
    atomic_write dir (dir <> "/.env") (codes (env_content config version))

  -- `removeGenerated` for the generated `.env`.
  unfoldable pub remove_generated_file : String → Exec (Event W.Object) (Unit {0})
  unfolding if_there read has_marker remove_if_there
  remove_generated_file path = if_there path (wrap "inspect generated .env: %w") (λ info.
      if is_plain_file info
      then (do
        bytes ← map_err (wrap "inspect generated .env marker: %w") (read W path)
        if has_marker bytes then remove_if_there W (λ e. e) path else pure tt)
      else pure tt)

  -- The part of `removeGenerated` for `.tripgo/rendered`.
  unfoldable pub remove_rendered : String → Exec (Event W.Object) (Unit {0})
  unfolding if_there change_file
  remove_rendered path =
      if_there path (wrap "inspect generated rendered directory: %w")
        (λ info. if is_plain_dir info then change_file W (remove_all path) else pure tt)

  -- The part of `removeGenerated` for the lock file of earlier versions.
  unfoldable pub remove_legacy_lock : String → Exec (Event W.Object) (Unit {0})
  unfolding if_there read remove_if_there
  remove_legacy_lock path = if_there path (wrap "inspect legacy environment.lock: %w") (λ info.
      if is_plain_file info
      then (do
        content ← map_err (wrap "read legacy environment.lock: %w") (read W path)
        if bytes_have_prefix content (env_marker <> "\n")
            then remove_if_there W (wrap "remove legacy environment.lock: %w") path
            else pure tt)
      else pure tt)

  -- `removeGenerated` for the directory `.tripgo`.
  unfoldable pub remove_generated_dir : String → Exec (Event W.Object) (Unit {0})
  unfolding if_there remove_rendered remove_legacy_lock change_file
  remove_generated_dir path = if_there path (wrap "inspect generated directory: %w") (λ info.
      if is_plain_dir info
      then (do
        remove_rendered (path <> "/rendered")
        remove_legacy_lock (path <> "/environment.lock")
        entries ←
            map_err (wrap "inspect generated directory contents: %w")
              (call (read_dir path) (λ t. W.read_dir t path))
        if is_empty entries then change_file W (remove path) else pure tt)
      else pure tt)
