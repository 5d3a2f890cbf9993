-- ===== src/Cluster/State.antt =====
-- internal/cluster/state.go: the state file and the operation lock.
use course_infra.Base.{ℕ, String, List, [], ◌∷◌, ◌++◌, str_eq, ◌||◌, not, ℤ, pos, eqb}
use course_infra.Errors.{Result, ok, err, new, wrap}
use course_infra.Effects.{
  Exec, pure, fail, lift, call, map_err, catch, finally, ignore, ◌>>=◌, ◌>>◌, refuse,
}
use course_infra.Effects.World.{
  World, Event, FileCall, mkdir_all, open_create, create_temp, chmod, write, sync, close, rename,
  remove, read_file, file_call, lock, unlock,
}
use course_infra.Cluster.{Service, state_path, lock_path}

-- `state`
pub record State : Type 0 where
  pub schema_version : ℤ
  pub cluster_id : String
  pub kind_version : String
  pub kubernetes : String
  pub kind_config_hash : String
  pub namespaces : List String
  pub running_namespaces : List String

-- `json.Unmarshal` and `json.MarshalIndent` at `state`.
pub record Codec : Type 0 where
  pub decode : List ℕ → Result State
  pub encode : State → Result (List ℕ)

module _ (W : World) where
  unfoldable pub change_file : FileCall → Exec (Event W.Object) (Unit {0})
  change_file c = call (file_call c) (λ t. W.file_call t c)

  unfoldable pub read : String → Exec (Event W.Object) (List ℕ)
  read path = call (read_file path) (λ t. W.read_file t path)

  abbrev pub temp_result : Result (Unit {0}) → String → Result String
  temp_result (ok u) path = ok path
  temp_result (err e) path = err e

  -- `os.CreateTemp` in a directory; the result is the new file's path.
  unfoldable pub new_temp : String → Exec (Event W.Object) String
  new_temp dir =
      call (file_call (create_temp dir))
        (λ t. temp_result (W.file_call t (create_temp dir)) (W.temp_name t))

  -- `acquireLock`
  unfoldable pub acquire_lock : Service → Exec (Event W.Object) (Unit {0})
  unfolding change_file
  acquire_lock s = do
    map_err (wrap "create lock directory: %w") (change_file (mkdir_all s.config_dir))
    map_err (wrap "open operation lock: %w") (change_file (open_create (lock_path s)))
    catch (call (lock (lock_path s)) (λ t. W.lock t (lock_path s))) (λ e. do
      ignore (change_file (close (lock_path s)))
      fail (wrap "another tripgoctl cluster operation is running: %w" e))

  -- `operationLock.close`
  unfoldable pub release_lock : Service → Exec (Event W.Object) (Unit {0})
  unfolding change_file
  release_lock s = do
    call {A = Unit {0}} unlock (λ t. ok tt)
    ignore (change_file (close (lock_path s)))

  module _ (json : Codec) where
    -- `loadState`
    unfoldable pub load_state : Service → Exec (Event W.Object) State
    unfolding read
    load_state s = do
      bytes ← read (state_path s)
      value ← map_err (wrap "decode cluster state: %w") (lift (json.decode bytes))
      refuse (not (eqb value.schema_version (pos 1)) || str_eq value.cluster_id "")
          (new "cluster state is incompatible or incomplete")
      pure value

    -- `writeState`: a new file is written and put in the place of the old one.
    unfoldable pub write_state : Service → State → Exec (Event W.Object) (Unit {0})
    unfolding change_file new_temp
    write_state s value = do
      bytes ← map_err (wrap "encode cluster state: %w") (lift (json.encode value))
      map_err (wrap "create state directory: %w") (change_file (mkdir_all s.config_dir))
      path ← map_err (wrap "create state temporary file: %w") (new_temp s.config_dir)
      finally
          (finally
            (do
              change_file (chmod path)
              map_err (wrap "write state: %w") (change_file (write path (bytes ++ (b'\n' ∷ []))))
              map_err (wrap "sync state: %w") (change_file (sync path))
              map_err (wrap "close state: %w") (change_file (close path))
              map_err (wrap "install state: %w") (change_file (rename path (state_path s))))
            (ignore (change_file (close path))))
          (ignore (change_file (remove path)))
