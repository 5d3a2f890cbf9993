-- ===== src/Cluster/Downloader.antt =====
-- internal/cluster/downloader.go: the verified kind binary in the cache. Progress is not modelled.
use course_infra.Base.{ℕ, String, Bool, false, List, str_eq, ◌==◌, not, if◌then◌else◌}
use course_infra.Text.{◌<>◌}
use course_infra.Errors.{GoError, new, wrap, is, not_exist}
use course_infra.Effects.{
  Exec, pure, fail, call, map_err, catch, attempt, finally, ignore, ◌>>=◌, ◌>>◌, either, maybe,
  refuse,
}
use course_infra.Effects.World.{
  World, Event, mkdir_all, chmod, write, sync, close, rename, remove, download,
}
use course_infra.Cluster.{Service, platform, kind_checksum, kind_version}
use course_infra.Cluster.State.{change_file, read, new_temp}

abbrev pub kind_dir : Service → String
kind_dir s = s.cache_dir <> "/kind/" <> kind_version

abbrev pub kind_path : Service → String
kind_path s = kind_dir s <> "/kind"

abbrev kind_url : Service → String
kind_url s =
    "https://github.com/kubernetes-sigs/kind/releases/download/" <> kind_version <> "/kind-"
    <> s.goos <> "-" <> s.goarch

module _ (W : World) where
  -- `validFileSHA256`
  unfoldable pub valid_file : String → String → Exec (Event W.Object) Bool
  unfolding read
  valid_file path expected = do
    content ← attempt (read W path)
    either content (λ bytes. pure (str_eq (W.sha256 bytes) expected)) (λ e. pure false)

  -- `os.Remove` where a file that is not there is no error.
  unfoldable pub remove_if_there : (GoError → GoError) → String → Exec (Event W.Object) (Unit {0})
  remove_if_there context path =
      catch (change_file W (remove path))
        (λ e. if is e not_exist then pure tt else fail (context e))

  -- What is done with a response whose status is 200.
  unfoldable pub install_kind : Service → String → List ℕ → Exec (Event W.Object) String
  unfolding new_temp change_file
  install_kind s expected body = do
    path ← map_err (wrap "create kind temporary file: %w") (new_temp W (kind_dir s))
    finally
        (finally
          (do
            map_err (wrap "write kind download: %w") (change_file W (write path body))
            refuse (not (str_eq (W.sha256 body) expected))
                (new "verify kind checksum: expected %s, got %s")
            map_err (wrap "make kind executable: %w") (change_file W (chmod path))
            map_err (wrap "sync kind download: %w") (change_file W (sync path))
            map_err (wrap "close kind download: %w") (change_file W (close path))
            map_err (wrap "install kind: %w") (change_file W (rename path (kind_path s)))
            pure (kind_path s))
          (ignore (change_file W (close path))))
        (ignore (change_file W (remove path)))

  -- The download, where the cache holds no valid binary.
  unfoldable pub fetch_kind : Service → String → Exec (Event W.Object) String
  unfolding remove_if_there install_kind
  fetch_kind s expected = do
    remove_if_there (wrap "remove invalid cached kind: %w") (kind_path s)
    map_err (wrap "create kind cache: %w") (change_file W (mkdir_all (kind_dir s)))
    response ←
        map_err (wrap "download kind %s: %w")
          (call (download (kind_url s)) (λ t. W.download t (kind_url s)))
    refuse (not (response.status == 200)) (new "download kind %s: server returned %s")
    install_kind s expected response.body

  -- `EnsureKind`
  unfoldable pub ensure_kind : Service → Exec (Event W.Object) String
  unfolding kind_checksum valid_file fetch_kind
  ensure_kind s =
      maybe (kind_checksum (platform s))
        (λ expected. do
          cached ← valid_file (kind_path s) expected
          if cached then pure (kind_path s) else fetch_kind s expected)
        (fail (new "unsupported platform %s; expected macOS or Linux on amd64/arm64"))
