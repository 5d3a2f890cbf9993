-- ===== src/Text.antt =====
-- Texts: the number formats `%d` and `%02d`, the code points that tests on characters read, and the
-- byte order of Go's strings, which is the order of their code points.

use Prim.Native.Char.{code}
use Prim.Native.Nat.{◌/◌, ◌%◌}
use Prim.Native.String
use text.Mathlib.TextLemmas.{nil-append, cons-append}
use course_infra.Base.{
  ◌≡◌, ap, ◌∙◌, ◌++◌, ℕ, zero, suc, String, Bool, true, false, List, [], ◌∷◌, ltb, leb, ◌==◌, ◌&&◌,
  ◌||◌, if◌then◌else◌, str_eq,
}

-- `s + t` of Go.
infixr 65 ◌<>◌
abbrev pub ◌<>◌ : String → String → String
s <> t = String.◌++◌ s t

abbrev pub codes : String → List ℕ
codes String.[] = []
codes (String.◌∷◌ c s) = code c ∷ codes s

digit : ℕ → String
digit zero = "0"
digit (suc zero) = "1"
digit (suc (suc zero)) = "2"
digit (suc (suc (suc zero))) = "3"
digit (suc (suc (suc (suc zero)))) = "4"
digit (suc (suc (suc (suc (suc zero))))) = "5"
digit (suc (suc (suc (suc (suc (suc zero)))))) = "6"
digit (suc (suc (suc (suc (suc (suc (suc zero))))))) = "7"
digit (suc (suc (suc (suc (suc (suc (suc (suc zero)))))))) = "8"
digit _ = "9"

-- A number has at most as many digits as it has units, and one.
digits : ℕ → ℕ → String
unfolding digit
digits zero n = digit (n % 10)
digits (suc fuel) n =
    let rest = digits fuel (n / 10) in if ltb n 10 then digit n else rest <> digit (n % 10)

-- `strconv.Itoa` and `%d`
unfoldable pub itoa : ℕ → String
unfolding digits
itoa n = digits n n

-- `%02d`
unfoldable pub padded : ℕ → String
unfolding itoa
padded n = if ltb n 10 then "0" <> itoa n else itoa n

abbrev pub is_prefix : List ℕ → List ℕ → Bool
is_prefix [] l = true
is_prefix (x ∷ p) [] = false
is_prefix (x ∷ p) (y ∷ l) = (x == y) && is_prefix p l

-- `strings.HasPrefix`
unfoldable pub has_prefix : String → String → Bool
has_prefix text prefix = is_prefix (codes prefix) (codes text)

-- `bytes.HasPrefix`
abbrev pub bytes_have_prefix : List ℕ → String → Bool
bytes_have_prefix bytes prefix = is_prefix (codes prefix) bytes

pub codes-append : (s t : String) → codes (s <> t) ≡ codes s ++ codes t
codes-append String.[] t = ap codes (nil-append t)
codes-append (String.◌∷◌ c s) t = ap codes (cons-append c s t) ∙ ap (code c ∷◌) (codes-append s t)

-- `unicode.IsSpace`
abbrev pub is_space : ℕ → Bool
is_space c =
    (leb 9 c && leb c 13)
    || c == 32
    || c == 0x85
    || c == 0xa0
    || c == 0x1680
    || (leb 0x2000 c && leb c 0x200a)
    || c == 0x2028
    || c == 0x2029
    || c == 0x202f
    || c == 0x205f
    || c == 0x3000

abbrev all_spaces : List ℕ → Bool
all_spaces [] = true
all_spaces (c ∷ cs) = is_space c && all_spaces cs

-- `strings.TrimSpace(text) == ""`
abbrev pub is_blank : String → Bool
is_blank text = all_spaces (codes text)

-- A read of a Go map of texts: empty where the key is missing.
abbrev pub lookup : String → List (String × String) → String
lookup key [] = ""
lookup key ((k, v) ∷ rest) = if str_eq k key then v else lookup key rest
