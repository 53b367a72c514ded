-- ===== src/Tei/Escape.antt =====
-- `_escape_xml` of tei_converter.py.
pub mod OnePass
pub mod Reader
pub mod Markup
use Prim.Native.Char.{Char, code}
use Prim.Native.String.{[], ◌∷◌, ◌++◌}
use text.Mathlib.TextEquality.{Char-path}
use text.Mathlib.TextLemmas.{append-nil, append_assoc, nil-append, cons-append}
use tei_nlp_converter.Base.{
  ℕ, String, Bool, true, false, Option, none, some, ◌≡◌, ◌≢◌, refl, sym, ap, ap₂, ◌∙◌, arith,
  Bool-cases, inl, inr, nat_beq, nat_beq_iff, ◌==◌, string_key, if◌then◌else◌, replace,
}

-- The replacements one after the other, `&` first; an empty text returns early.
unfoldable pub escape_xml : String → String
unfolding replace
escape_xml text =
    if text == ""
    then ""
    else replace b'\'' "&apos;" (
        replace b'"' "&quot;"
          (replace b'>' "&gt;" (replace b'<' "&lt;" (replace b'&' "&amp;" text))))
