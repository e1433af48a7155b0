-- ===== src/Base/Text.antt =====
-- Texts that the program builds: f-strings, decimal numbers, the head of a hash, `",".join`.
use Prim.Native.Nat.{ℕ, zero, suc, ◌/◌, ◌%◌}
use Prim.Native.Char.{Char, code}
use Prim.Native.String.{String, slice, ◌++◌, compare}
use mathlib.Core.Bool.{Bool, true, not, ◌&&◌, ◌||◌}
use text.Mathlib.Text.{◌==◌, is_lt}
use mathlib.Core.List.{List, [], ◌∷◌}
use mathlib.Core.Path.{◌≡◌, refl}
use se_1_rune_agent.Base.Tests.{if◌then◌else◌, eqb, leb, ltb}

-- An f-string, given by its parts.
unfoldable pub concat : List String → String
concat [] = ""
concat (s ∷ ss) = s ++ concat ss

abbrev digit : ℕ → String
digit zero = "0"
digit (suc zero) = "1"
digit (suc (suc zero)) = "2"
digit (suc (suc (suc zero))) = "3"
digit (suc (suc (suc (suc zero)))) = "4"
digit (suc (suc (suc (suc (suc zero))))) = "5"
digit (suc (suc (suc (suc (suc (suc zero)))))) = "6"
digit (suc (suc (suc (suc (suc (suc (suc zero))))))) = "7"
digit (suc (suc (suc (suc (suc (suc (suc (suc zero)))))))) = "8"
digit _ = "9"

decimal_from : ℕ → ℕ → String → String
decimal_from zero n tail = tail
decimal_from (suc fuel) n tail =
    let rest = decimal_from fuel (n / 10) (digit (n % 10) ++ tail) in
    if eqb (n / 10) 0 then digit (n % 10) ++ tail else rest

-- `str(n)`; a number has fewer digits than its successor counts.
unfoldable pub decimal : ℕ → String
unfolding decimal_from
decimal n = decimal_from (suc n) n ""

-- `h[:k]` of a hexadecimal digest.
unfoldable pub head_of : ℕ → String → String
head_of k h = slice h 0 k

decimal_3907 : decimal 3907 ≡ "3907"
unfolding decimal
decimal_3907 = refl

decimal_0 : decimal 0 ≡ "0"
unfolding decimal
decimal_0 = refl

-- `s.replace(a, b)` for single characters, the first given by its code.
unfoldable pub replace : ℕ → Char → String → String
replace a b String.[] = ""
replace a b (String.◌∷◌ c s) =
    let rest = replace a b s in String.◌∷◌ (if eqb (code c) a then b else c) rest

abbrev pub underscore : Char
underscore = "_"

-- `len(s)`
abbrev pub text_length : String → ℕ
text_length String.[] = 0
text_length (String.◌∷◌ c s) = suc (text_length s)

-- What `str.strip` takes off.
unfoldable pub is_space : ℕ → Bool
is_space c =
    leb 9 c && leb c 13
    || leb 28 c && leb c 32
    || eqb c 133
    || eqb c 160
    || eqb c 5760
    || leb 8192 c && leb c 8202
    || leb 8232 c && leb c 8233
    || eqb c 8239
    || eqb c 8287
    || eqb c 12288

unfoldable pub lstrip : String → String
unfolding is_space
lstrip String.[] = ""
lstrip (String.◌∷◌ c s) = let rest = lstrip s in if is_space (code c) then rest else String.◌∷◌ c s

unfoldable pub rstrip : String → String
unfolding is_space
rstrip String.[] = ""
rstrip (String.◌∷◌ c s) =
    let rest = rstrip s in if is_space (code c) && rest == "" then "" else String.◌∷◌ c rest

-- `s.strip()`
unfoldable pub strip : String → String
unfolding lstrip rstrip
strip s = rstrip (lstrip s)

abbrev onto_first : Char → List String → List String
onto_first c [] = String.◌∷◌ c "" ∷ []
onto_first c (w ∷ ws) = String.◌∷◌ c w ∷ ws

-- `s.split(sep)` for a separator of one character, given by its code.
unfoldable pub split : ℕ → String → List String
split sep String.[] = "" ∷ []
split sep (String.◌∷◌ c s) =
    let rest = split sep s in if eqb (code c) sep then "" ∷ rest else onto_first c rest

-- `s.isascii()`
unfoldable pub is_ascii : String → Bool
is_ascii String.[] = true
is_ascii (String.◌∷◌ c s) = ltb (code c) 128 && is_ascii s

-- `a <= b` of Python's texts.
unfoldable pub text_leb : String → String → Bool
text_leb a b = not (is_lt (compare b a))

-- `sep.join(xs)`
unfoldable pub join : String → List String → String
join sep [] = ""
join sep (x ∷ []) = x
join sep (x ∷ y ∷ xs) = x ++ (sep ++ join sep (y ∷ xs))

strip_example : strip "  a b " ≡ "a b"
unfolding strip
strip_example = refl

split_example : split b',' "a, b,," ≡ "a" ∷ " b" ∷ "" ∷ "" ∷ []
unfolding split
split_example = refl
