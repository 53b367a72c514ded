-- ===== src/Tei/Escape/Markup.antt =====
-- The characters that `_escape_xml` leaves no trace of.
use Prim.Native.Char.{Char, code}
use Prim.Native.String.{[], ◌∷◌, ◌++◌}
use text.Mathlib.TextLemmas.{nil-append, cons-append}
use tei_nlp_converter.Base.{
  ℕ, String, Bool, true, false, ◌≡◌, refl, arith, nat_beq, string_key, if◌then◌else◌,
}
use tei_nlp_converter.Tei.Escape.{escape_xml}
use tei_nlp_converter.Tei.Escape.OnePass.{entity_of, escape_once, escape_xml-eq-escape_once}

-- Whether a character with this code stands in the text.
pub holds : ℕ → String → Bool
holds k [] = false
holds k (c ∷ s) = if nat_beq (code c) k then true else holds k s

holds-append :
    (k : ℕ) (s t : String) → holds k s ≡ false → holds k t ≡ false → holds k (s ++ t) ≡ false
unfolding holds
holds-append k [] t p q = simp nil-append q
holds-append k (c ∷ s) t p q = simp cons-append (ground (arith, holds-append k s t))

-- The characters that end a text or an attribute value in XML.
pub data IsMarkup : ℕ → Type 0 where
  less : {k : ℕ} → k ≡ b'<' → IsMarkup k
  greater : {k : ℕ} → k ≡ b'>' → IsMarkup k
  quote : {k : ℕ} → k ≡ b'"' → IsMarkup k
  apostrophe : {k : ℕ} → k ≡ b'\'' → IsMarkup k

holds-entities :
    {k : ℕ}
    → IsMarkup k
    → (holds k "&amp;" ≡ false)
      × (holds k "&lt;" ≡ false)
      × (holds k "&gt;" ≡ false)
      × (holds k "&quot;" ≡ false)
      × (holds k "&apos;" ≡ false)
unfolding holds
holds-entities (less e) = rw e (refl, refl, refl, refl, refl)
holds-entities (greater e) = rw e (refl, refl, refl, refl, refl)
holds-entities (quote e) = rw e (refl, refl, refl, refl, refl)
holds-entities (apostrophe e) = rw e (refl, refl, refl, refl, refl)

holds_char : (k : ℕ) (c : Char) → holds k (c ∷ []) ≡ nat_beq (code c) k
unfolding holds
holds_char k c = ground arith

holds-entity_of : (k : ℕ) (c : Char) → IsMarkup k → holds k (entity_of c) ≡ false
unfolding entity_of
holds-entity_of k c (less e) = ground (arith, holds-entities (less e), holds_char k c)
holds-entity_of k c (greater e) = ground (arith, holds-entities (greater e), holds_char k c)
holds-entity_of k c (quote e) = ground (arith, holds-entities (quote e), holds_char k c)
holds-entity_of k c (apostrophe e) = ground (arith, holds-entities (apostrophe e), holds_char k c)

-- The escaped text holds no `<`, no `>` and no quote.
pub holds-escape_xml : (k : ℕ) (text : String) → IsMarkup k → holds k (escape_xml text) ≡ false
unfolding holds escape_once
holds-escape_xml k text m = rw escape_xml-eq-escape_once (by_char text)
  where
    by_char : (s : String) → holds k (escape_once s) ≡ false
    by_char [] = refl
    by_char (c ∷ s) =
        holds-append k (entity_of c) (escape_once s) (holds-entity_of k c m) (by_char s)
