-- ===== src/Effects/Monad.antt =====
-- Operations that make calls and may fail. What was called before a failure stays called.
use course_infra.Base.{Bool, true, false, Option, none, some, List, [], ◌∷◌}
use course_infra.Errors.{GoError, Result, ok, err}

abbrev pub Exec {ℓ} : Type 0 → Type ℓ → Type ℓ
Exec E A = List E → Result A × List E

abbrev pub rethrow {ℓ} : {A : Type ℓ} → Result A → (GoError → GoError) → Result A
rethrow (ok a) f = ok a
rethrow (err e) f = err (f e)

module _ {ℓ} {E : Type 0} {A : Type ℓ} where
  unfoldable pub pure : A → Exec E A
  pure a t = (ok a, t)

  unfoldable pub fail : GoError → Exec E A
  fail e t = (err e, t)

  unfoldable pub lift : Result A → Exec E A
  lift r t = (r, t)

  -- The call `e`, which the world answers from the history before it.
  unfoldable pub call : E → (List E → Result A) → Exec E A
  call e answer t = (answer t, e ∷ t)

  -- `if err != nil { return f(err) }`
  unfoldable pub map_err : (GoError → GoError) → Exec E A → Exec E A
  map_err f m t = let (r, t') = m t in (rethrow r f, t')

  abbrev recover : Result A → (GoError → Exec E A) → List E → Result A × List E
  recover (ok a) handle t = (ok a, t)
  recover (err e) handle t = handle e t

  -- The same where the handler makes calls of its own.
  unfoldable pub catch : Exec E A → (GoError → Exec E A) → Exec E A
  catch m handle t = let (r, t') = m t in recover r handle t'

  -- The value and the error as one result, for a caller that looks at both.
  unfoldable pub attempt : Exec E A → Exec E (Result A)
  attempt m t = let (r, t') = m t in (ok r, t')

  -- `defer k` in front of `m`: `k` runs whatever `m` returns, and its result is dropped.
  unfoldable pub finally : Exec E A → Exec E (Unit {0}) → Exec E A
  finally m k t = let (r, t') = m t in (r, (k t').1)

  -- A call whose result is dropped, `_ = f()`.
  unfoldable pub ignore : Exec E A → Exec E (Unit {0})
  ignore m t = (ok tt, (m t).1)

module _ {ℓ κ} {E : Type 0} {A : Type ℓ} {B : Type κ} where
  abbrev pub continue : Result A → (A → Exec E B) → List E → Result B × List E
  continue (ok a) f t = f a t
  continue (err e) f t = (err e, t)

  infixl 5 ◌>>=◌ ◌>>◌
  -- Opening this opens the other ways to build an operation too.
  unfoldable pub ◌>>=◌ : Exec E A → (A → Exec E B) → Exec E B
  unfolding pure fail lift call map_err catch attempt finally ignore
  ◌>>=◌ m f t = let (r, t') = m t in continue r f t'

  abbrev pub ◌>>◌ : Exec E A → Exec E B → Exec E B
  m >> k = m >>= λ _. k

  -- A caller that treats a result in two ways.
  unfoldable pub either : Result A → (A → Exec E B) → (GoError → Exec E B) → Exec E B
  either (ok a) f g = f a
  either (err e) f g = g e

  -- A caller that looks a value up.
  unfoldable pub maybe : Option A → (A → Exec E B) → Exec E B → Exec E B
  maybe (some a) f k = f a
  maybe none f k = k

module _ {ℓ} {E : Type 0} {A : Type ℓ} where
  -- `for _, a := range list { if err := f(a); err != nil { return err } }`
  unfoldable pub for_each : List A → (A → Exec E (Unit {0})) → Exec E (Unit {0})
  unfolding pure
  for_each [] f = pure tt
  for_each (a ∷ l) f = f a >>= λ _. for_each l f

-- `if test { return e }`
unfoldable pub refuse : {E : Type 0} → Bool → GoError → Exec E (Unit {0})
refuse true e t = (err e, t)
refuse false e t = (ok tt, t)
