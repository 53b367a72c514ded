-- ===== src/Tei/Xml.antt =====
-- The elements of xml.etree.ElementTree, as the converter builds them.
use Prim.Native.String.{◌++◌, []}
use text.Mathlib.TextLemmas.{append-nil, append_assoc, nil-append}
use mathlib.Core.List.{List, ◌∷◌}
use mathlib.Core.List as Seq
use tei_nlp_converter.Base.{
  ℕ, ◌+◌, String, Option, none, some, Dict, put, ◌≡◌, arith, ◌==◌, string_key, if◌then◌else◌,
}
use tei_nlp_converter.Tei.Data.{get_or}

mutual
  -- tag, attributes, `text`, `tail` and the children
  pub data Element : Type 0 where
    element : String → Dict String String → Option String → Option String → Elements → Element

  pub data Elements : Type 0 where
    nil : Elements
    cons : Element → Elements → Elements

-- A name of the TEI namespace, and one of the `xml:` namespace.
abbrev pub tei : String → String
tei name = "{http://www.tei-c.org/ns/1.0}" ++ name

abbrev pub xml : String → String
xml name = "{http://www.w3.org/XML/1998/namespace}" ++ name

-- `ET.Element(tag)`
abbrev pub new : String → Element
new tag = element tag Seq.[] none none nil

-- `e.set(name, value)`
abbrev pub set : String → String → Element → Element
set name value (element tag attrib text tail children) =
    element tag (put name value attrib) text tail children

abbrev pub set_text : String → Element → Element
set_text value (element tag attrib text tail children) =
    element tag attrib (some value) tail children

abbrev pub set_tail : String → Element → Element
set_tail value (element tag attrib text tail children) =
    element tag attrib text (some value) children

unfoldable pub snoc : Elements → Element → Elements
snoc nil e = cons e nil
snoc (cons x xs) e = cons x (snoc xs e)

-- `parent.append(e)`, and `ET.SubElement` once its element is complete
unfoldable pub append : Element → Element → Element
append (element tag attrib text tail children) e = element tag attrib text tail (snoc children e)

-- An element with its attributes, its text and its children, in the order of the code.
abbrev pub elements : List Element → Elements
elements Seq.[] = nil
elements (e ∷ es) = cons e (elements es)

abbrev pub node : String → Dict String String → List Element → Element
node name attrib children = element (tei name) attrib none none (elements children)

abbrev pub leaf : String → Dict String String → String → Element
leaf name attrib text = element (tei name) attrib (some text) none nil

abbrev pub tail_of : Element → String
tail_of (element tag attrib text tail children) = get_or tail []

-- The text of an element and of what it holds: `"".join(e.itertext())`.
unfoldable mutual
  pub itertext : Element → String
  itertext (element tag attrib text tail children) = get_or text [] ++ itertexts children

  pub itertexts : Elements → String
  itertexts nil = []
  itertexts (cons e es) = itertext e ++ (tail_of e ++ itertexts es)

-- The elements with a tag in a tree, the root included.
unfoldable mutual
  pub count_tag : String → Element → ℕ
  count_tag name (element tag attrib text tail children) =
      (if tag == name then 1 else 0) + count_tags name children

  pub count_tags : String → Elements → ℕ
  count_tags name nil = 0
  count_tags name (cons e es) = count_tag name e + count_tags name es

itertexts-snoc :
    (es : Elements) (e : Element)
    → itertexts (snoc es e) ≡ itertexts es ++ (itertext e ++ tail_of e)
unfolding snoc itertexts
itertexts-snoc nil e = simp (append-nil, nil-append)
itertexts-snoc (cons x xs) e = simp (itertexts-snoc xs e, append_assoc)

-- What is appended comes last, with its tail.
pub itertext-append :
    (p e : Element) → itertext (append p e) ≡ itertext p ++ (itertext e ++ tail_of e)
unfolding append itertext
itertext-append (element tag attrib text tail children) e = simp (itertexts-snoc, append_assoc)

count_tags-snoc :
    (name : String) (es : Elements) (e : Element)
    → count_tags name (snoc es e) ≡ count_tags name es + count_tag name e
unfolding snoc count_tags
count_tags-snoc name nil e = omega arith
count_tags-snoc name (cons x xs) e = omega (arith, count_tags-snoc name xs e)

pub count_tag-append :
    (name : String) (p e : Element)
    → count_tag name (append p e) ≡ count_tag name p + count_tag name e
unfolding append count_tag
count_tag-append name (element tag attrib text tail children) e =
    omega (arith, count_tags-snoc name children e)
