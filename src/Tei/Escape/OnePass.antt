-- ===== src/Tei/Escape/OnePass.antt =====
-- `_escape_xml` as one pass over the text.
use Prim.Native.Char.{Char, code}
use Prim.Native.String.{[], ◌∷◌, ◌++◌}
use text.Mathlib.TextLemmas.{append-nil, append_assoc, nil-append, cons-append}
use tei_nlp_converter.Base.{
  ℕ, String, ◌≡◌, refl, ap, ap₂, ◌∙◌, arith, Bool-cases, inl, inr, nat_beq, ◌==◌, string_key,
  if◌then◌else◌, replace,
}
use tei_nlp_converter.Tei.Escape.{escape_xml}

-- What stands for one character.
unfoldable pub entity_of : Char → String
entity_of c =
    if nat_beq (code c) b'&'
    then "&amp;"
    else if nat_beq (code c) b'<'
    then "&lt;"
    else if nat_beq (code c) b'>'
    then "&gt;"
    else if nat_beq (code c) b'"'
    then "&quot;"
    else if nat_beq (code c) b'\''
    then "&apos;"
    else c ∷ []

-- One pass over the text.
unfoldable pub escape_once : String → String
escape_once [] = []
escape_once (c ∷ s) = entity_of c ++ escape_once s

replace-append : (c : ℕ) (r s t : String) → replace c r (s ++ t) ≡ replace c r s ++ replace c r t
unfolding replace
replace-append c r [] t = simp nil-append
replace-append c r (x ∷ s) t = simp (cons-append, replace-append c r s t, append_assoc)

abbrev all_five : String → String
all_five s =
    replace b'\'' "&apos;"
      (replace b'"' "&quot;" (replace b'>' "&gt;" (replace b'<' "&lt;" (replace b'&' "&amp;" s))))

all_five-append : (s t : String) → all_five (s ++ t) ≡ all_five s ++ all_five t
all_five-append s t = simp replace-append

replace_char :
    (k : ℕ) (r : String) (c : Char)
    → replace k r (c ∷ []) ≡ (if nat_beq (code c) k then r else c ∷ [])
unfolding replace
replace_char k r c = simp append-nil

-- No replacement changes what an earlier one has written.
closed :
    (replace b'<' "&lt;" "&amp;" ≡ "&amp;")
    × (replace b'>' "&gt;" "&amp;" ≡ "&amp;")
    × (replace b'"' "&quot;" "&amp;" ≡ "&amp;")
    × (replace b'\'' "&apos;" "&amp;" ≡ "&amp;")
    × (replace b'>' "&gt;" "&lt;" ≡ "&lt;")
    × (replace b'"' "&quot;" "&lt;" ≡ "&lt;")
    × (replace b'\'' "&apos;" "&lt;" ≡ "&lt;")
    × (replace b'"' "&quot;" "&gt;" ≡ "&gt;")
    × (replace b'\'' "&apos;" "&gt;" ≡ "&gt;")
    × (replace b'\'' "&apos;" "&quot;" ≡ "&quot;")
unfolding replace
closed = (refl, refl, refl, refl, refl, refl, refl, refl, refl, refl)

all_five_char : (c : Char) → all_five (c ∷ []) ≡ entity_of c
unfolding entity_of
all_five_char c = ground (
  arith,
  closed,
  replace_char b'&' "&amp;" c,
  replace_char b'<' "&lt;" c,
  replace_char b'>' "&gt;" c,
  replace_char b'"' "&quot;" c,
  replace_char b'\'' "&apos;" c,
)

all_five-escape_once : (s : String) → all_five s ≡ escape_once s
unfolding escape_once
all_five-escape_once [] = unfold replace in refl
all_five-escape_once (c ∷ s) =
    ap all_five (split c s)
    ∙ all_five-append (c ∷ []) s
    ∙ ap₂ (λ a b. a ++ b) (all_five_char c) (all_five-escape_once s)
  where
    split : (c : Char) (s : String) → Path String (c ∷ s) ((c ∷ []) ++ s)
    split c s = simp (cons-append, nil-append)

-- The five replacements are one pass: none of them touches what another has written.
pub escape_xml-eq-escape_once : (text : String) → escape_xml text ≡ escape_once text
unfolding escape_xml escape_once
escape_xml-eq-escape_once text = elim (Bool-cases (text == "")) [
  | inl h ↦ let e = (string_key.same_iff text "").0 h in rw e
  | inr h ↦ rw h (all_five-escape_once text)
]
