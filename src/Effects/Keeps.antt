-- ===== src/Effects/Keeps.antt =====
-- Invariants of histories, one rule for each way to build an operation.
use course_infra.Base.{
  ◌≡◌, refl, Bool, true, false, Option, none, some, List, [], ◌∷◌, if◌then◌else◌,
}
use course_infra.Errors.{GoError, Result, ok, err}
use course_infra.Effects.Monad.{
  Exec, pure, fail, lift, call, map_err, catch, attempt, finally, ignore, continue, ◌>>=◌, either,
  maybe, for_each, refuse,
}

-- `op` keeps `Inv`, whether it returns or fails.
pub record Keeps {ℓ} {Call : Type 0} {A : Type ℓ} (Inv : List Call → Type 0) (op : Exec Call A)
    : Type 0 where
  pub at : (t : List Call) → Inv t → Inv (op t).1

module _ {ℓ} {Call : Type 0} {A : Type ℓ} {Inv : List Call → Type 0} where
  pub Keeps-pure : (a : A) → Keeps Inv (pure a)
  unfolding pure
  Keeps-pure a = record { at = λ t holds. holds }

  pub Keeps-fail : (e : GoError) → Keeps {A = A} Inv (fail e)
  unfolding fail
  Keeps-fail e = record { at = λ t holds. holds }

  pub Keeps-lift : (r : Result A) → Keeps Inv (lift r)
  unfolding lift
  Keeps-lift r = record { at = λ t holds. holds }

  pub Keeps-call :
      (e : Call) (answer : List Call → Result A)
      → ((t : List Call) → Inv t → Inv (e ∷ t))
      → Keeps Inv (call e answer)
  unfolding call
  Keeps-call e answer k = record { at = k }

  pub Keeps-map_err :
      (f : GoError → GoError) (op : Exec Call A) → Keeps Inv op → Keeps Inv (map_err f op)
  unfolding map_err
  Keeps-map_err f op k = record { at = k.at }

  recover-Keeps :
      (r : Result A) (handle : GoError → Exec Call A) (t : List Call)
      → ((e : GoError) → Keeps Inv (handle e))
      → Inv t
      → Inv (catch (λ u. (r, u)) handle t).1
  unfolding catch
  recover-Keeps (ok a) handle t k h = h
  recover-Keeps (err e) handle t k h = (k e).at t h

  pub Keeps-catch :
      (op : Exec Call A) (handle : GoError → Exec Call A)
      → Keeps Inv op
      → ((e : GoError) → Keeps Inv (handle e))
      → Keeps Inv (catch op handle)
  unfolding catch
  Keeps-catch op handle k h = record {
    at = λ t p. let (r, u) = op t in recover-Keeps r handle u h (k.at t p);
  }

  pub Keeps-attempt : (op : Exec Call A) → Keeps Inv op → Keeps Inv (attempt op)
  unfolding attempt
  Keeps-attempt op k = record { at = k.at }

  pub Keeps-finally :
      (op : Exec Call A) (d : Exec Call (Unit {0}))
      → Keeps Inv op
      → Keeps Inv d
      → Keeps Inv (finally op d)
  unfolding finally
  Keeps-finally op d k h = record { at = λ t p. h.at (op t).1 (k.at t p) }

  pub Keeps-ignore : (op : Exec Call A) → Keeps Inv op → Keeps Inv (ignore op)
  unfolding ignore
  Keeps-ignore op k = record { at = k.at }

  pub Keeps-if :
      (b : Bool) (op n : Exec Call A)
      → (b ≡ true → Keeps Inv op)
      → (b ≡ false → Keeps Inv n)
      → Keeps Inv (if b then op else n)
  Keeps-if true op n h k = h refl
  Keeps-if false op n h k = k refl

module _ {ℓ κ} {Call : Type 0} {A : Type ℓ} {B : Type κ} {Inv : List Call → Type 0} where
  continue-Keeps :
      (r : Result A) (f : A → Exec Call B) (t : List Call)
      → ((a : A) → Keeps Inv (f a))
      → Inv t
      → Inv (continue r f t).1
  continue-Keeps (ok a) f t k h = (k a).at t h
  continue-Keeps (err e) f t k h = h

  pub Keeps-bind :
      (op : Exec Call A) (f : A → Exec Call B)
      → Keeps Inv op
      → ((a : A) → Keeps Inv (f a))
      → Keeps Inv (op >>= f)
  unfolding ◌>>=◌
  Keeps-bind op f k h = record {
    at = λ t p. let (r, u) = op t in continue-Keeps r f u h (k.at t p);
  }

  pub Keeps-either :
      (r : Result A) (f : A → Exec Call B) (g : GoError → Exec Call B)
      → ((a : A) → r ≡ ok a → Keeps Inv (f a))
      → ((e : GoError) → r ≡ err e → Keeps Inv (g e))
      → Keeps Inv (either r f g)
  unfolding either
  Keeps-either (ok a) f g h k = h a refl
  Keeps-either (err e) f g h k = k e refl

  pub Keeps-maybe :
      (o : Option A) (f : A → Exec Call B) (k : Exec Call B)
      → ((a : A) → o ≡ some a → Keeps Inv (f a))
      → (o ≡ none → Keeps Inv k)
      → Keeps Inv (maybe o f k)
  unfolding maybe
  Keeps-maybe (some a) f k h j = h a refl
  Keeps-maybe none f k h j = j refl

module _ {ℓ} {Call : Type 0} {A : Type ℓ} {Inv : List Call → Type 0} where
  pub Keeps-for_each :
      (l : List A) (f : A → Exec Call (Unit {0}))
      → ((a : A) → Keeps Inv (f a))
      → Keeps Inv (for_each l f)
  unfolding for_each
  Keeps-for_each [] f k = Keeps-pure tt
  Keeps-for_each (a ∷ l) f k = Keeps-bind (f a) _ (k a) (λ _. Keeps-for_each l f k)

pub Keeps-refuse :
    {Call : Type 0} (Inv : List Call → Type 0) (b : Bool) (e : GoError) → Keeps Inv (refuse b e)
unfolding refuse
Keeps-refuse Inv true e = record { at = λ t holds. holds }
Keeps-refuse Inv false e = record { at = λ t holds. holds }

pub ruleset keeps_rules = (
  Keeps-pure, Keeps-fail, Keeps-lift, Keeps-map_err, Keeps-catch, Keeps-attempt, Keeps-finally,
  Keeps-ignore, Keeps-if, Keeps-bind, Keeps-either, Keeps-maybe, Keeps-for_each, Keeps-refuse,
)
