-- ===== src/Base/Lists.antt =====
-- Lists measured by native numbers, under the library's names, and predicates on their members.
use Prim.Native.Nat.{ℕ, zero, suc, ◌+◌, ◌-◌, ◌≤◌, min}
use mathlib.Core.Path.{◌≡◌, refl, ap}
use mathlib.Core.List.{List, [], ◌∷◌, ◌++◌}
use native.Mathlib.Omega.{arith}

module _ {ℓ} {A : Type ℓ} where
  abbrev pub length : List A → ℕ
  length [] = 0
  length (x ∷ xs) = suc (length xs)

  abbrev pub take : ℕ → List A → List A
  take zero xs = []
  take (suc n) [] = []
  take (suc n) (x ∷ xs) = x ∷ take n xs

  pub length-append : (xs ys : List A) → length (xs ++ ys) ≡ length xs + length ys
  length-append [] ys = omega arith
  length-append (x ∷ xs) ys = omega (arith, length-append xs ys)

  pub length-take : (n : ℕ) (xs : List A) → length (take n xs) ≡ min n (length xs)
  length-take zero xs = omega arith
  length-take (suc n) [] = omega arith
  length-take (suc n) (x ∷ xs) = omega (arith, length-take n xs)

  pub take_all : (n : ℕ) (xs : List A) → length xs ≤ n → take n xs ≡ xs
  take_all zero [] h = refl
  take_all zero (x ∷ xs) h = absurd (omega arith)
  take_all (suc n) [] h = refl
  take_all (suc n) (x ∷ xs) h = ap (◌∷◌ x) (take_all n xs (omega arith))

  -- A prefix of a prefix that is put in front of more.
  pub take-append :
      (n : ℕ) (xs ys : List A) → take n (xs ++ ys) ≡ take n xs ++ take (n - length xs) ys
  take-append zero [] ys = refl
  take-append zero (x ∷ xs) ys = ground arith
  take-append (suc n) [] ys = ground arith
  take-append (suc n) (x ∷ xs) ys = ground (arith, take-append n xs ys)

  pub take_zero : (n : ℕ) (xs : List A) → n ≡ 0 → take n xs ≡ []
  take_zero n xs h = rw h

  -- Filling up to `n` in two steps.
  pub take_twice :
      (n : ℕ) (xs ys : List A) → take n xs ++ take (n - length (take n xs)) ys ≡ take n (xs ++ ys)
  take_twice n xs ys =
      let e : n - length (take n xs) ≡ n - length xs = omega (arith, length-take n xs) in
      rw (e, take-append n xs ys)

-- Every member has the property; at given data this computes to a tuple.
abbrev pub All {κ ℓ} : {A : Type κ} → (A → Type ℓ) → List A → Type ℓ
All P [] = Unit
All P (a ∷ l) = P a × All P l

pub All-append {κ ℓ} :
    {A : Type κ} (P : A → Type ℓ) (l m : List A) → All P l → All P m → All P (l ++ m)
All-append P [] m h k = k
All-append P (a ∷ l) m (h, j) k = (h, All-append P l m j k)
