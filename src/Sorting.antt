-- ===== src/Sorting.antt =====
-- `slices.Sort` on texts, and `slices.SortFunc` by a text: insertion sort stands for them, since a
-- sorted list with the same members is unique for texts. The byte order of Go's strings is the
-- order of their code points.
pub mod Texts
pub mod Laws
use course_infra.Base.{ℕ, String, Bool, true, false, List, [], ◌∷◌, ltb, ◌==◌, if◌then◌else◌}
use course_infra.Text.{codes}

-- `a <= b` on sequences of numbers, in lexical order.
abbrev pub lex_le : List ℕ → List ℕ → Bool
lex_le [] b = true
lex_le (x ∷ a) [] = false
lex_le (x ∷ a) (y ∷ b) = let rest = lex_le a b in if x == y then rest else ltb x y

-- `strings.Compare(s, t) <= 0`
pub text_le : String → String → Bool
text_le s t = lex_le (codes s) (codes t)

module _ {ℓ} {A : Type ℓ} (key : A → String) where
  unfoldable pub insert : A → List A → List A
  unfolding text_le
  insert a [] = a ∷ []
  insert a (b ∷ l) = if text_le (key a) (key b) then a ∷ b ∷ l else b ∷ insert a l

  unfoldable pub sort : List A → List A
  unfolding insert
  sort [] = []
  sort (a ∷ l) = insert a (sort l)
