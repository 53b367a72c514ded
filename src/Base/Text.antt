-- ===== src/Base/Text.antt =====
-- What the code uses of Python's `str`: `replace` of a character, decimal numbers, `upper`, `lower`.
use Prim.Native.Nat.{ℕ, zero, suc, ◌+◌, ◌-◌, ◌/◌, ◌%◌}
use Prim.Native.Char.{Char, code}
use Prim.Native.String.{String, [], ◌∷◌, ◌++◌, slice, len}
use mathlib.Core.Bool.{Bool, true, false, ◌&&◌, ◌||◌}
use mathlib.Core.Path.{◌≡◌, refl}
use tei_nlp_converter.Base.Tests.{if◌then◌else◌, nat_beq, leb, ◌==◌, string_key}

-- `s.replace(c, r)` for a text `c` of one character, given by its code.
unfoldable pub replace : ℕ → String → String → String
replace c r [] = []
replace c r (x ∷ s) = (if nat_beq (code x) c then r else x ∷ []) ++ replace c r s

-- The digit of a number below ten.
digit : ℕ → String
digit n = slice "0123456789" n (n + 1)

decimal : ℕ → ℕ → String → String
decimal zero n out = out
decimal (suc fuel) n out =
    let rest = decimal fuel (n / 10) (digit (n % 10) ++ out) in if nat_beq n 0 then out else rest

-- `str(n)`; a number has fewer digits than its value, which is the fuel.
unfoldable pub str : ℕ → String
unfolding decimal digit
str n = if nat_beq n 0 then "0" else decimal n n []

-- `upper` and `lower` on ASCII.
upper_char : Char → String
upper_char c =
    if leb 97 (code c) && leb (code c) 122
    then slice "ABCDEFGHIJKLMNOPQRSTUVWXYZ" (code c - 97) (code c - 96)
    else c ∷ []

lower_char : Char → String
lower_char c =
    if leb 65 (code c) && leb (code c) 90
    then slice "abcdefghijklmnopqrstuvwxyz" (code c - 65) (code c - 64)
    else c ∷ []

unfoldable pub upper : String → String
unfolding upper_char
upper [] = []
upper (c ∷ s) = upper_char c ++ upper s

unfoldable pub lower : String → String
unfolding lower_char
lower [] = []
lower (c ∷ s) = lower_char c ++ lower s

cases_run : (upper "Per-1" ≡ "PER-1") × (lower "PER-1z" ≡ "per-1z")
unfolding upper lower
cases_run = (refl, refl)

-- `c.isspace()`
is_whitespace : ℕ → Bool
is_whitespace n =
    (leb 9 n && leb n 13)
    || (leb 28 n && leb n 32)
    || nat_beq n 133
    || nat_beq n 160
    || nat_beq n 5760
    || (leb 8192 n && leb n 8202)
    || (leb 8232 n && leb n 8233)
    || nat_beq n 8239
    || nat_beq n 8287
    || nat_beq n 12288

unfoldable pub rstrip : String → String
unfolding is_whitespace
rstrip [] = []
rstrip (c ∷ s) =
    let rest = rstrip s in if rest == "" && is_whitespace (code c) then "" else c ∷ rest

unfoldable pub lstrip : String → String
unfolding is_whitespace
lstrip [] = []
lstrip (c ∷ s) = let rest = lstrip s in if is_whitespace (code c) then rest else c ∷ s

unfoldable pub strip : String → String
unfolding lstrip rstrip
strip s = rstrip (lstrip s)

strip_run : strip "  two words\n" ≡ "two words"
unfolding strip
strip_run = refl

str_runs : str 40962 ≡ "40962"
unfolding str
str_runs = refl

-- Whether one text starts with another, and whether it holds it: `part in s`.
is_prefix : String → String → Bool
is_prefix [] s = true
is_prefix (c ∷ part) [] = false
is_prefix (c ∷ part) (x ∷ s) = let rest = is_prefix part s in nat_beq (code c) (code x) && rest

unfoldable pub contains : String → String → Bool
unfolding is_prefix
contains part [] = is_prefix part []
contains part (x ∷ s) = let rest = contains part s in is_prefix part (x ∷ s) || rest

contains_runs :
    (contains "ell" "hello" ≡ true) × (contains "elo" "hello" ≡ false) × (contains "" "" ≡ true)
unfolding contains
contains_runs = (refl, refl, refl)

-- `s.replace(part, r)` for a text `part` that is not empty; the rest of an occurrence is skipped.

replace_from : ℕ → String → String → String → String
replace_from skipped part r [] = []
replace_from zero part r (x ∷ s) =
    let found = replace_from (len part - 1) part r s in
    let rest = replace_from zero part r s in if is_prefix part (x ∷ s) then r ++ found else x ∷ rest
replace_from (suc skipped) part r (x ∷ s) = replace_from skipped part r s

unfoldable pub replace_text : String → String → String → String
unfolding replace_from is_prefix
replace_text part r s = replace_from zero part r s

replace_text_runs :
    (replace_text "mcg" "µg" "5 mcgmcg" ≡ "5 µgµg") × (replace_text "aa" "b" "aaa" ≡ "ba")
unfolding replace_text
replace_text_runs = (refl, refl)
