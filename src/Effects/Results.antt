-- ===== src/Effects/Results.antt =====
-- What an operation that succeeds has done: one rule for each way to build it.
use course_infra.Base.{◌≡◌, refl, List, arith}
use course_infra.Errors.{GoError, Result, ok, err}
use course_infra.Effects.Monad.{Exec, continue, rethrow, ◌>>=◌}

module _ {ℓ κ} {E : Type 0} {A : Type ℓ} {B : Type κ} where
  -- A value and a history that the first part has returned, from which the second part succeeds.
  pub record IsContinued (m : Exec E A) (f : A → Exec E B) (b : B) (t : List E) : Type (ℓ ⊔ κ) where
    pub value : A
    pub first : (m t).0 ≡ ok value
    pub second : (f value (m t).1).0 ≡ ok b

  continue-ok :
      (r : Result A) (f : A → Exec E B) (b : B) (t : List E)
      → (continue r f t).0 ≡ ok b
      → (a : A) × (r ≡ ok a) × ((f a t).0 ≡ ok b)
  continue-ok (ok a) f b t h = (a, refl, h)
  continue-ok (err e) f b t h = absurd (ground arith)

  pub IsContinued-bind :
      (m : Exec E A) (f : A → Exec E B) (b : B) (t : List E)
      → ((m >>= f) t).0 ≡ ok b
      → IsContinued m f b t
  unfolding ◌>>=◌
  IsContinued-bind m f b t h =
      let (a, e, g) = continue-ok (m t).0 f b (m t).1 h in
      record { value = a; first = e; second = g }

pub rethrow-ok {ℓ} :
    {A : Type ℓ} (r : Result A) (f : GoError → GoError) (a : A) → rethrow r f ≡ ok a → r ≡ ok a
rethrow-ok (ok b) f a h = h
rethrow-ok (err e) f a h = absurd (ground arith)
