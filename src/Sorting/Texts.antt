-- ===== src/Sorting/Texts.antt =====
-- The order on texts is total, transitive and antisymmetric.
use text.Mathlib.TextEquality.{Char-path}
use course_infra.Base.{ℕ, String, ◌≡◌, refl, true, false, List, [], ◌∷◌, arith}
use course_infra.Text.{codes}
use course_infra.Sorting.{lex_le, text_le}

lex_le_refl : (a : List ℕ) → lex_le a a ≡ true
lex_le_refl [] = refl
lex_le_refl (x ∷ a) = ground (arith, lex_le_refl a)

lex_le_total : (a b : List ℕ) → lex_le a b ≡ false → lex_le b a ≡ true
lex_le_total [] b h = cc
lex_le_total (x ∷ a) [] h = refl
lex_le_total (x ∷ a) (y ∷ b) h = ground (arith, lex_le_total a b)

lex_le_trans : (a b c : List ℕ) → lex_le a b ≡ true → lex_le b c ≡ true → lex_le a c ≡ true
lex_le_trans [] b c h k = refl
lex_le_trans (x ∷ a) [] c h k = cc
lex_le_trans (x ∷ a) (y ∷ b) [] h k = cc
lex_le_trans (x ∷ a) (y ∷ b) (z ∷ c) h k = ground (arith, lex_le_trans a b c)

lex_le_antisymm : (a b : List ℕ) → lex_le a b ≡ true → lex_le b a ≡ true → a ≡ b
lex_le_antisymm [] [] h k = refl
lex_le_antisymm [] (y ∷ b) h k = cc
lex_le_antisymm (x ∷ a) [] h k = cc
lex_le_antisymm (x ∷ a) (y ∷ b) h k = ground (arith, lex_le_antisymm a b)

pub codes-injective : (s t : String) → codes s ≡ codes t → s ≡ t
codes-injective String.[] String.[] h = refl
codes-injective String.[] (String.◌∷◌ d t) h = cc
codes-injective (String.◌∷◌ c s) String.[] h = cc
codes-injective (String.◌∷◌ c s) (String.◌∷◌ d t) h =
    λ i. String.◌∷◌ (Char-path c d (cc h) i) (codes-injective s t (cc h) i)

pub text_le_refl : (s : String) → text_le s s ≡ true
unfolding text_le
text_le_refl s = lex_le_refl (codes s)

pub text_le_total : (s t : String) → text_le s t ≡ false → text_le t s ≡ true
unfolding text_le
text_le_total s t h = lex_le_total (codes s) (codes t) h

pub text_le_trans : (s t u : String) → text_le s t ≡ true → text_le t u ≡ true → text_le s u ≡ true
unfolding text_le
text_le_trans s t u h k = lex_le_trans (codes s) (codes t) (codes u) h k

pub text_le_antisymm : (s t : String) → text_le s t ≡ true → text_le t s ≡ true → s ≡ t
unfolding text_le
text_le_antisymm s t h k = codes-injective s t (lex_le_antisymm (codes s) (codes t) h k)
