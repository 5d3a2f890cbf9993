-- ===== src/Sorting/Laws.antt =====
-- What sorting does: the result is ordered, has the same members, and does not depend on the order
-- of the input where no two members have the same key.
use mathlib.Core.List.{Permᴰ}
use mathlib.Core.List.Permᴰ
use course_infra.Base.{
  String, ◌≡◌, ◌≢◌, refl, ap, ◌∙◌, sym, subst, true, List, [], ◌∷◌, arith, All, Bool-cases, inl,
  inr,
}
use course_infra.Sorting.{text_le, insert, sort}
use course_infra.Sorting.Texts.{text_le_total, text_le_trans, text_le_antisymm}

module _ {A : Type 0} where
  pub Permᴰ-All : (P : A → Type 0) {l m : List A} → Permᴰ l m → All P l → All P m
  Permᴰ-All P Permᴰ.nil h = h
  Permᴰ-All P (Permᴰ.cons e p) h = (subst P e h.0, Permᴰ-All P p h.1)
  Permᴰ-All P (Permᴰ.swap e f) h = (subst P f h.1.0, (subst P e h.0, h.1.1))
  Permᴰ-All P (Permᴰ.trans p q) h = Permᴰ-All P q (Permᴰ-All P p h)

module _ {A : Type 0} (key : A → String) where
  -- Each member's key is at or before those of all later members.
  abbrev pub IsSorted : List A → Type 0
  IsSorted [] = Unit
  IsSorted (a ∷ l) = All (λ b. text_le (key a) (key b) ≡ true) l × IsSorted l

  -- No two members have the same key.
  abbrev pub IsDistinct : List A → Type 0
  IsDistinct [] = Unit
  IsDistinct (a ∷ l) = All (λ b. key a ≢ key b) l × IsDistinct l

  pub Permᴰ-IsDistinct : {l m : List A} → Permᴰ l m → IsDistinct l → IsDistinct m
  Permᴰ-IsDistinct Permᴰ.nil h = h
  Permᴰ-IsDistinct (Permᴰ.cons {l₂ = l₂} e p) h =
      (subst (λ a. All (λ b. key a ≢ key b) l₂) e (Permᴰ-All _ p h.0), Permᴰ-IsDistinct p h.1)
  Permᴰ-IsDistinct (Permᴰ.swap {l = l} e f) h = (
    (
      λ q. h.0.0 (ap key e ∙ sym q ∙ sym (ap key f)),
      subst (λ a. All (λ b. key a ≢ key b) l) f h.1.0,
    ),
    (subst (λ a. All (λ b. key a ≢ key b) l) e h.0.1, h.1.1),
  )
  Permᴰ-IsDistinct (Permᴰ.trans p q) h = Permᴰ-IsDistinct q (Permᴰ-IsDistinct p h)

  pub insert-All : (P : A → Type 0) (a : A) (l : List A) → P a → All P l → All P (insert key a l)
  unfolding insert
  insert-All P a [] h k = (h, k)
  insert-All P a (b ∷ l) h k = ground (arith, insert-All P a l h)

  pub sort-All : (P : A → Type 0) (l : List A) → All P l → All P (sort key l)
  unfolding sort
  sort-All P [] h = h
  sort-All P (a ∷ l) h = insert-All P a (sort key l) h.0 (sort-All P l h.1)

  insert-perm : (a : A) (l : List A) → Permᴰ (insert key a l) (a ∷ l)
  unfolding insert
  insert-perm a [] = Permᴰ.refl (a ∷ [])
  insert-perm a (b ∷ l) = elim (Bool-cases (text_le (key a) (key b))) [
    | inl h ↦ rw h (Permᴰ.refl (a ∷ b ∷ l))
    | inr h ↦ rw h (Permᴰ.trans (Permᴰ.cons refl (insert-perm a l)) (Permᴰ.swap refl refl))
  ]

  pub sort-perm : (l : List A) → Permᴰ (sort key l) l
  unfolding sort
  sort-perm [] = Permᴰ.nil
  sort-perm (a ∷ l) = Permᴰ.trans (insert-perm a (sort key l)) (Permᴰ.cons refl (sort-perm l))

  le-All :
      (a b : A) (l : List A)
      → text_le (key a) (key b) ≡ true
      → All (λ c. text_le (key b) (key c) ≡ true) l
      → All (λ c. text_le (key a) (key c) ≡ true) l
  le-All a b [] h k = k
  le-All a b (c ∷ l) h k = (text_le_trans (key a) (key b) (key c) h k.0, le-All a b l h k.1)

  insert-IsSorted : (a : A) (l : List A) → IsSorted l → IsSorted (insert key a l)
  unfolding insert
  insert-IsSorted a [] h = (tt, tt)
  insert-IsSorted a (b ∷ l) h = elim (Bool-cases (text_le (key a) (key b))) [
    | inl e ↦ rw e ((e, le-All a b l e h.0), h)
    | inr e ↦ rw e (insert-All _ a l (text_le_total (key a) (key b) e) h.0, insert-IsSorted a l h.1)
  ]

  pub sort-IsSorted : (l : List A) → IsSorted (sort key l)
  unfolding sort
  sort-IsSorted [] = tt
  sort-IsSorted (a ∷ l) = insert-IsSorted a (sort key l) (sort-IsSorted l)

  insert_comm :
      (a b : A) (l : List A)
      → key a ≢ key b
      → insert key a (insert key b l) ≡ insert key b (insert key a l)
  unfolding insert
  insert_comm a b [] h =
      ground (arith, text_le_total (key a) (key b), text_le_antisymm (key a) (key b))
  insert_comm a b (c ∷ l) h = ground (
    arith,
    text_le_total (key a) (key b),
    text_le_antisymm (key a) (key b),
    text_le_trans (key a) (key b) (key c),
    text_le_trans (key b) (key a) (key c),
    insert_comm a b l h,
  )

  -- The sorted list does not depend on the order of the input.
  pub sort-eq_of_perm : {l m : List A} → Permᴰ l m → IsDistinct l → sort key l ≡ sort key m
  unfolding sort
  sort-eq_of_perm Permᴰ.nil h = refl
  sort-eq_of_perm (Permᴰ.cons {b = b} e p) h = rw e (ap (insert key b) (sort-eq_of_perm p h.1))
  sort-eq_of_perm (Permᴰ.swap {a = a} {b = b} {l = l} e f) h =
      rw (← e, ← f) (insert_comm a b (sort key l) h.0.0)
  sort-eq_of_perm (Permᴰ.trans p q) h =
      sort-eq_of_perm p h ∙ sort-eq_of_perm q (Permᴰ-IsDistinct p h)
