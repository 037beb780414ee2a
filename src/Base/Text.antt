-- ===== src/Base/Text.antt =====
-- The functions of Go's package strings that the program calls, over the native texts.
--
-- `to_lower` replaces the letters of Unicode, and `trim_space` knows its white space.
use fmxevolution_go.Base.Case.{unicode_pairs}
use Prim.Native.Nat.{ℕ, zero, suc, ◌/◌, ◌%◌}
use Prim.Native.Char.{Char, code}
use Prim.Native.String.{String, [], ◌∷◌, ◌++◌, len, find}
use mathlib.Core.Path.{◌≡◌, ap}
use mathlib.Core.Logic.{inl, inr}
use mathlib.Core.Bool.{Bool, true, false, ◌&&◌, ◌||◌}
use mathlib.Core.List.{List}
use text.Mathlib.Text.{◌==◌ as str_eq}
use text.Mathlib.TextEquality.{eq_iff}
use native.Mathlib.Omega.{arith}
use fmxevolution_go.Base.Tests.{ltb, leb, ◌==◌, if◌then◌else◌, Bool-cases}

-- `unicode.IsSpace`
is_space : Char → Bool
is_space c =
    let n = code c in
    (leb 9 n && leb n 13)
    || n == 32
    || n == 0x85
    || n == 0xa0
    || n == 0x1680
    || (leb 0x2000 n && leb n 0x200a)
    || n == 0x2028
    || n == 0x2029
    || n == 0x202f
    || n == 0x205f
    || n == 0x3000

is_empty : String → Bool
is_empty [] = true
is_empty (c ∷ s) = false

trim_left : String → String
trim_left [] = []
trim_left (c ∷ s) = let rest = trim_left s in if is_space c then rest else c ∷ s

-- A white character goes where nothing is left behind it.
trim_right : String → String
unfolding is_empty
trim_right [] = []
trim_right (c ∷ s) = let rest = trim_right s in if is_space c && is_empty rest then [] else c ∷ rest

-- `strings.TrimSpace`
unfoldable pub trim_space : String → String
unfolding trim_left trim_right is_space
trim_space s = trim_right (trim_left s)

-- `strings.TrimSpace(s) == ""`
abbrev pub is_blank : String → Bool
is_blank s = str_eq (trim_space s) ""

-- Two texts that the test tells apart.
pub str_eq-false : (s t : String) → str_eq s t ≡ false → ¬ (s ≡ t)
str_eq-false s t h e = ground (arith, eq_iff s t)

pub str_eq-sym : (s t : String) → str_eq s t ≡ str_eq t s
str_eq-sym s t = ground (arith, eq_iff s t, eq_iff t s)

-- No text passes two tests for texts that differ.
pub str_eq-exclusive : (s t u : String) → str_eq t u ≡ false → (str_eq s t && str_eq s u) ≡ false
str_eq-exclusive s t u h = elim (Bool-cases (str_eq s t)) [
  | inl hit ↦ rw (hit, ap (λ x. str_eq x u) ((eq_iff s t).0 hit)) h
  | inr miss ↦ rw miss
]

-- The letters of ASCII, each behind the capital that it replaces.
abbrev case_pairs : String
case_pairs = "AaBbCcDdEeFfGgHhIiJjKkLlMmNnOoPpQqRrSsTtUuVvWwXxYyZz"

lower_by : String → Char → Char
lower_by (u ∷ (l ∷ rest)) c = let later = lower_by rest c in if code c == code u then l else later
lower_by _ c = c

-- `unicode.ToLower`
lower_char : Char → Char
unfolding lower_by
lower_char c = if leb (code c) 127 then lower_by case_pairs c else lower_by unicode_pairs c

-- `strings.Map` with a function that keeps every character
map_chars : (Char → Char) → String → String
map_chars f [] = []
map_chars f (c ∷ s) = f c ∷ map_chars f s

-- `strings.ToLower`
unfoldable pub to_lower : String → String
unfolding map_chars lower_char
to_lower = map_chars lower_char

-- `strings.ReplaceAll` of one ASCII character by another
unfoldable pub replace_char : Char → Char → String → String
unfolding map_chars
replace_char from to = map_chars (λ c. if code c == code from then to else c)

-- `strings.ReplaceAll(s, "c", "")` and `strings.Map` with a function that drops characters
unfoldable pub keep_chars : (Char → Bool) → String → String
keep_chars keep [] = []
keep_chars keep (c ∷ s) = let rest = keep_chars keep s in if keep c then c ∷ rest else rest

-- `strings.Split(s, sep)[0]` for a separator of one character
unfoldable pub before_char : Char → String → String
before_char sep [] = []
before_char sep (c ∷ s) =
    let rest = before_char sep s in if code c == code sep then [] else c ∷ rest

-- `strings.Contains`: the library's `find` answers one more than the length where there is none
unfoldable pub contains : String → String → Bool
contains s t = leb (find s t) (len s)

-- The texts one behind the other, as `fmt.Sprintf` and `+` put them.
unfoldable pub concat : List String → String
concat List.[] = ""
concat (List.◌∷◌ s ss) = s ++ concat ss

digit_char : ℕ → Char
digit_char zero = "0"
digit_char (suc zero) = "1"
digit_char (suc (suc zero)) = "2"
digit_char (suc (suc (suc zero))) = "3"
digit_char (suc (suc (suc (suc zero)))) = "4"
digit_char (suc (suc (suc (suc (suc zero))))) = "5"
digit_char (suc (suc (suc (suc (suc (suc zero)))))) = "6"
digit_char (suc (suc (suc (suc (suc (suc (suc zero))))))) = "7"
digit_char (suc (suc (suc (suc (suc (suc (suc (suc zero)))))))) = "8"
digit_char _ = "9"

digits_from : ℕ → ℕ → String → String
unfolding digit_char
digits_from zero n s = s
digits_from (suc fuel) n s =
    let more = digits_from fuel (n / 10) (digit_char (n % 10) ∷ s) in
    if ltb n 10 then digit_char n ∷ s else more

-- `%d` of a number below 10 ^ 20, which an `int64` is.
unfoldable pub decimal : ℕ → String
unfolding digits_from
decimal n = digits_from 20 n ""
