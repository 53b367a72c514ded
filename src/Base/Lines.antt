-- ===== src/Base/Lines.antt =====
-- Texts as lists of lines.
use Prim.Native.Char.{Char, code}
use Prim.Native.String.{String, ◌++◌}
use mathlib.Core.List.{List, [], ◌∷◌}
use mathlib.Core.Path.{◌≡◌, refl}
use tei_nlp_converter.Base.Tests.{if◌then◌else◌, nat_beq, Bool-cases}
use mathlib.Core.Bool.{Bool, true, false}
use mathlib.Core.Logic.{inl, inr}
use Prim.Native.Nat.{ℕ}
use text.Mathlib.TextLemmas.{nil-append, cons-append}

-- A character before the first line.
on_first : Char → List String → List String
on_first c [] = String.◌∷◌ c "" ∷ []
on_first c (l ∷ ls) = String.◌∷◌ c l ∷ ls

-- `s.split(c)` for a text `c` of one character, given by its code: the pieces between the separators.
unfoldable pub split : ℕ → String → List String
unfolding on_first
split n String.[] = "" ∷ []
split n (String.◌∷◌ c s) =
    let rest = split n s in if nat_beq (code c) n then "" ∷ rest else on_first c rest

-- `s.split('\n')`
unfoldable pub split_lines : String → List String
unfolding split
split_lines s = split 10 s

-- The character does not stand in the text.
unfoldable pub is_free : ℕ → String → Bool
is_free n String.[] = true
is_free n (String.◌∷◌ c s) = let rest = is_free n s in if nat_beq (code c) n then false else rest

-- A text without the separator is one piece.
pub split_free : (n : ℕ) (s : String) → is_free n s ≡ true → split n s ≡ s ∷ []
unfolding split is_free on_first
split_free n String.[] h = refl
split_free n (String.◌∷◌ c s) h = elim (Bool-cases (nat_beq (code c) n)) [
  | inl same ↦ absurd (cc (rw same at h))
  | inr other ↦ rw (other, split_free n s (rw other at h)) refl
]

split_before :
    (n : ℕ) (s : String) (c : Char) (t : String)
    → nat_beq (code c) n ≡ true
    → is_free n s ≡ true
    → split n (s ++ String.◌∷◌ c t) ≡ s ∷ split n t
unfolding split is_free on_first
split_before n String.[] c t sep h = rw (nil-append (String.◌∷◌ c t), sep) refl
split_before n (String.◌∷◌ x s) c t sep h = elim (Bool-cases (nat_beq (code x) n)) [
  | inl same ↦ absurd (cc (rw same at h))
  | inr other ↦
      rw (cons-append x s (String.◌∷◌ c t), other, split_before n s c t sep (rw other at h)) refl
]

-- A piece before a separator that is not in it.
pub split-append :
    (n : ℕ) (s : String) (c : Char) (t : String)
    → nat_beq (code c) n ≡ true
    → is_free n s ≡ true
    → split n (s ++ (String.◌∷◌ c "" ++ t)) ≡ s ∷ split n t
split-append n s c t sep h = rw (cons-append c "" t, nil-append t) (split_before n s c t sep h)

-- `'\n'.join(lines)`
unfoldable pub join_lines : List String → String
join_lines [] = ""
join_lines (l ∷ []) = l
join_lines (l ∷ k ∷ ls) = l ++ ("\n" ++ join_lines (k ∷ ls))

lines_run : join_lines (split_lines "a\n\nb") ≡ "a\n\nb"
unfolding split_lines join_lines
lines_run = refl
