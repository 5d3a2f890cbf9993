-- ===== src/Cluster/Locking.antt =====
-- internal/cluster/state.go: who holds the operation lock, read from the history of calls.
pub mod Steps
pub mod Downloads
pub mod Body
pub mod Release
use course_infra.Base.{
  ◌≡◌, refl, Bool, true, false, List, [], ◌∷◌, ◌&&◌, ◌||◌, if◌then◌else◌, arith,
}
use course_infra.Errors.{Result, ok, err}
use course_infra.Effects.{Exec, call}
use course_infra.Effects.Keeps.{Keeps, Keeps-call}
use course_infra.Effects.World.{
  World, Trace, Event, FileCall, get, list, patch, delete, run, lstat, read_file, read_dir,
  file_call, lock, unlock, download, listen, random, wait, check_context, write, rename, remove,
  remove_all, mkdir_all, open_create, open_dir, create_temp, mkdir_temp, chmod, sync, close,
}

abbrev is_ok {ℓ} : {A : Type ℓ} → Result A → Bool
is_ok (ok a) = true
is_ok (err e) = false

-- Whether a call of the file system changes content or names.
abbrev is_file_change : FileCall → Bool
is_file_change (write path bytes) = true
is_file_change (rename path target) = true
is_file_change (remove path) = true
is_file_change (remove_all path) = true
is_file_change (mkdir_all path) = false
is_file_change (open_create path) = false
is_file_change (open_dir path) = false
is_file_change (create_temp path) = false
is_file_change (mkdir_temp path) = false
is_file_change (chmod path) = false
is_file_change (sync path) = false
is_file_change (close path) = false

-- Whether a call may change what other operations see: a process, the Kubernetes API, a file.
abbrev pub is_change : {Object : Type 0} → Event Object → Bool
is_change (run name arguments) = true
is_change (patch resource namespace name object) = true
is_change (delete resource name) = true
is_change (file_call c) = is_file_change c
is_change _ = false

abbrev pub is_lock_call : {Object : Type 0} → Event Object → Bool
is_lock_call (lock path) = true
is_lock_call unlock = true
is_lock_call _ = false

module _ (W : World) where
  -- The lock was obtained and not given back since.
  abbrev pub is_held : Trace W → Bool
  is_held [] = false
  is_held (lock path ∷ t) = is_ok (W.lock t path) || is_held t
  is_held (unlock ∷ t) = false
  is_held (e ∷ t) = is_held t

  -- Every call that changes something was made while the lock was held.
  abbrev pub is_guarded : Trace W → Bool
  is_guarded [] = true
  is_guarded (e ∷ t) = if is_change e then is_held t && is_guarded t else is_guarded t

  abbrev pub IsLocked : Trace W → Type 0
  IsLocked t = (is_held t ≡ true) × (is_guarded t ≡ true)

  abbrev pub IsUnlocked : Trace W → Type 0
  IsUnlocked t = (is_held t ≡ false) × (is_guarded t ≡ true)

  is_held_skip :
      (e : Event W.Object) (t : Trace W) → is_lock_call e ≡ false → is_held (e ∷ t) ≡ is_held t
  is_held_skip (get r n m) t h = refl
  is_held_skip (list r n m) t h = refl
  is_held_skip (patch r n m o) t h = refl
  is_held_skip (delete r n) t h = refl
  is_held_skip (run n a) t h = refl
  is_held_skip (lstat p) t h = refl
  is_held_skip (read_file p) t h = refl
  is_held_skip (read_dir p) t h = refl
  is_held_skip (file_call c) t h = refl
  is_held_skip (download p) t h = refl
  is_held_skip (listen p) t h = refl
  is_held_skip random t h = refl
  is_held_skip wait t h = refl
  is_held_skip check_context t h = refl
  is_held_skip (lock p) t h = cc
  is_held_skip unlock t h = cc

  -- Any call but those of the lock keeps it.
  pub IsLocked-call :
      {A : Type 0} (e : Event W.Object) (answer : Trace W → Result A)
      → is_lock_call e ≡ false
      → Keeps IsLocked (call e answer)
  IsLocked-call e answer h =
      Keeps-call e answer
        (λ t (held, guarded). (rw (is_held_skip e t h) held, rw (held, guarded) (ground arith)))
