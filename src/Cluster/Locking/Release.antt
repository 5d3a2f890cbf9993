-- ===== src/Cluster/Locking/Release.antt =====
-- internal/cluster/service.go: the operation lock around each operation.
use course_infra.Base.{refl, String, List, ◌∷◌, inl, inr, arith}
use course_infra.Errors.{GoError, Result, ok, err, Result-cases}
use course_infra.Effects.{Exec, rethrow, catch, finally, fail, ◌>>=◌, ◌>>◌, continue}
use course_infra.Effects.Keeps.{Keeps}
use course_infra.Effects.World.{World, Trace, Event, mkdir_all, open_create, file_call}
use course_infra.Cluster.{Service, lock_path}
use course_infra.Cluster.State.{Codec, acquire_lock, release_lock}
use course_infra.Cluster.Lifecycle.{with_lock, start, inspect}
use course_infra.Cluster.Stopping.{stop}
use course_infra.Cluster.Lease.{begin_environment_operation}
use course_infra.Cluster.Locking.{IsLocked, IsUnlocked}
use course_infra.Cluster.Locking.Body.{
  start_locked-IsLocked, inspect_locked-IsLocked, stop_locked-IsLocked, begin_locked-IsLocked,
}

module _ (W : World) where
  -- An operation that is to return with the lock, and without it when it fails.
  abbrev pub IsHeldAfter {ℓ} : {A : Type ℓ} → Result A × Trace W → Type 0
  IsHeldAfter (ok a, t) = IsLocked W t
  IsHeldAfter (err e, t) = IsUnlocked W t

  acquire_lock-IsHeldAfter :
      (s : Service) (t : Trace W) → IsUnlocked W t → IsHeldAfter (acquire_lock W s t)
  unfolding acquire_lock ◌>>=◌
  acquire_lock-IsHeldAfter s t h =
      let c = mkdir_all s.config_dir in
      let o = open_create (lock_path s) in
      let u : Trace W = file_call o ∷ file_call c ∷ t in
      elim (Result-cases (W.file_call t c)) [
        | inr (e, f) ↦ rw f h
        | inl (_, f) ↦ elim (Result-cases (W.file_call (file_call c ∷ t) o)) [
          | inr (e, g) ↦ rw (f, g) h
          | inl (_, g) ↦ elim (Result-cases (W.lock u (lock_path s))) [
            | inl (_, k) ↦ rw (f, g, k) (ground arith)
            | inr (e, k) ↦ rw (f, g, k) (ground arith)
          ]
        ]
      ]

  pub release_lock-IsUnlocked :
      (s : Service) (t : Trace W) → IsLocked W t → IsUnlocked W (release_lock W s t).1
  unfolding release_lock ◌>>=◌
  release_lock-IsUnlocked s t h = (refl, h.1)

  module _ (json : Codec) (s : Service) (context : GoError → GoError) where
    released :
        {A : Type 0} (m : Exec (Event W.Object) A)
        → Keeps (IsLocked W) m
        → (r : Result (Unit {0})) (t : Trace W) → IsHeldAfter (r, t)
        → IsUnlocked W (continue (rethrow r context) (λ _. finally m (release_lock W s)) t).1
    unfolding finally
    released m k (ok u) t h = release_lock-IsUnlocked s (m t).1 (k.at t h)
    released m k (err e) t h = h

    fail_released :
        {A : Type 0} (r : Result A) (t : Trace W)
        → IsLocked W t
        → IsHeldAfter (catch (λ u. (r, u)) (λ e. release_lock W s >> fail e) t)
    unfolding catch fail ◌>>=◌ release_lock
    fail_released (ok a) t h = h
    fail_released (err e) t h = (refl, h.1)

    begun :
        {A : Type 0} (m : Exec (Event W.Object) A)
        → Keeps (IsLocked W) m
        → (r : Result (Unit {0})) (t : Trace W) → IsHeldAfter (r, t)
        → IsHeldAfter
            (continue (rethrow r context) (λ _. catch m (λ e. release_lock W s >> fail e)) t)
    unfolding catch
    begun m k (ok u) t h = let (r, u) = m t in fail_released r u (k.at t h)
    begun m k (err e) t h = h

  module _ (json : Codec) (s : Service) where
    with_lock-IsUnlocked :
        {A : Type 0} (m : Exec (Event W.Object) A)
        → Keeps (IsLocked W) m
        → (t : Trace W) → IsUnlocked W t
        → IsUnlocked W (with_lock W json s m t).1
    unfolding with_lock ◌>>=◌
    with_lock-IsUnlocked m k t h =
        let (r, u) = acquire_lock W s t in
        released json s _ m k r u (acquire_lock-IsHeldAfter s t h)

    -- From a history in which the lock is free and every call that changes something was made under
    -- the lock, `Start`, `Inspect` and `Stop` lead to such a history again, whatever the world
    -- answers and whether they return or fail.
    pub operations-IsUnlocked :
        (expected : List String) (t : Trace W)
        → IsUnlocked W t
        → IsUnlocked W (start W json s t).1
          × IsUnlocked W (inspect W json s t).1
          × IsUnlocked W (stop W json s expected t).1
    unfolding start inspect stop
    operations-IsUnlocked expected t h = (
      with_lock-IsUnlocked _ (start_locked-IsLocked W json s) t h,
      with_lock-IsUnlocked _ (inspect_locked-IsLocked W json s) t h,
      with_lock-IsUnlocked _ (stop_locked-IsLocked W json s expected) t h,
    )

    -- From a history in which the lock is free and every call that changes something was made under
    -- the lock, `BeginEnvironmentOperation` returns a lease with the lock held, or fails
    -- with the lock free. In both cases every call that changes something was made under the lock.
    pub begin_environment_operation-IsHeldAfter :
        (t : Trace W) → IsUnlocked W t → IsHeldAfter (begin_environment_operation W json s t)
    unfolding begin_environment_operation ◌>>=◌
    begin_environment_operation-IsHeldAfter t h =
        let (r, u) = acquire_lock W s t in
        begun json s _ _ (begin_locked-IsLocked W json s) r u (acquire_lock-IsHeldAfter s t h)
