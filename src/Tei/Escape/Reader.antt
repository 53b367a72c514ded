-- ===== src/Tei/Escape/Reader.antt =====
-- A reader that undoes `_escape_xml`.
use Prim.Native.Char.{Char, code}
use Prim.Native.String.{[], ◌∷◌, ◌++◌}
use text.Mathlib.TextEquality.{Char-path}
use text.Mathlib.TextLemmas.{nil-append, cons-append}
use tei_nlp_converter.Base.{
  String, false, Option, none, some, ◌≡◌, refl, ap, ◌∙◌, arith, nat_beq, ◌==◌, string_key,
  if◌then◌else◌,
}
use tei_nlp_converter.Tei.Escape.{escape_xml}
use tei_nlp_converter.Tei.Escape.OnePass.{entity_of, escape_once, escape_xml-eq-escape_once}

-- A reader of XML text: `some name` while it is inside of an entity.
character : String → String
character name =
    if name == "amp"
    then "&"
    else if name == "lt"
    then "<"
    else if name == "gt"
    then ">"
    else if name == "quot"
    then "\""
    else if name == "apos"
    then "'"
    else ""

pub read_xml : Option String → String → String
unfolding character
read_xml pending [] = []
read_xml none (c ∷ s) =
    let inside = read_xml (some []) s in
    let outside = c ∷ read_xml none s in if nat_beq (code c) b'&' then inside else outside
read_xml (some name) (c ∷ s) =
    let ended = character name ++ read_xml none s in
    let longer = read_xml (some (name ++ c ∷ [])) s in
    if nat_beq (code c) b';' then ended else longer

read_xml_entities :
    (s : String)
    → (read_xml none ("&amp;" ++ s) ≡ "&" ∷ read_xml none s)
      × (read_xml none ("&lt;" ++ s) ≡ "<" ∷ read_xml none s)
      × (read_xml none ("&gt;" ++ s) ≡ ">" ∷ read_xml none s)
      × (read_xml none ("&quot;" ++ s) ≡ "\"" ∷ read_xml none s)
      × (read_xml none ("&apos;" ++ s) ≡ "'" ∷ read_xml none s)
unfolding read_xml
read_xml_entities s = (
  rw (cons-append, cons-append, cons-append, cons-append, cons-append, nil-append)
      (rw (cons-append, nil-append)),
  rw (cons-append, cons-append, cons-append, cons-append, nil-append)
      (rw (cons-append, nil-append)),
  rw (cons-append, cons-append, cons-append, cons-append, nil-append)
      (rw (cons-append, nil-append)),
  rw (cons-append, cons-append, cons-append, cons-append, cons-append, cons-append, nil-append)
      (rw (cons-append, nil-append)),
  rw (cons-append, cons-append, cons-append, cons-append, cons-append, cons-append, nil-append)
      (rw (cons-append, nil-append)),
)

read_xml_plain :
    (c : Char) (s : String)
    → nat_beq (code c) b'&' ≡ false
    → read_xml none ((c ∷ []) ++ s) ≡ c ∷ read_xml none s
unfolding read_xml
read_xml_plain c s h = simp (cons-append, nil-append) (rw h)

read_xml-entity_of :
    (c : Char) (s : String) → read_xml none (entity_of c ++ s) ≡ c ∷ read_xml none s
unfolding entity_of
read_xml-entity_of c s = ground (
  arith,
  read_xml_entities s,
  read_xml_plain c s,
  Char-path c "&",
  Char-path c "<",
  Char-path c ">",
  Char-path c "\"",
  Char-path c "'",
)

-- A reader of the escaped text gets the text back, whatever characters are in it.
pub read_xml-escape_xml : (text : String) → read_xml none (escape_xml text) ≡ text
unfolding read_xml escape_once
read_xml-escape_xml text = rw escape_xml-eq-escape_once (by_char text)
  where
    by_char : (s : String) → read_xml none (escape_once s) ≡ s
    by_char [] = refl
    by_char (c ∷ s) = read_xml-entity_of c (escape_once s) ∙ ap (λ t. c ∷ t) (by_char s)
