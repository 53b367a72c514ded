-- ===== src/Tei/Convert/Outcome.antt =====
-- Whatever is wrong with the results of the provider, a document is returned.
use tei_nlp_converter.Base.{
  String, List, [], ◌∷◌, ok, ◌≡◌, refl, All, Bool-cases, inl, inr, catch_returns, message, Settles,
  Settles-ok, Settles-raise, Settles-if, Settles-bind, settles_rules,
}
use tei_nlp_converter.Tei.Data.{Entry, list, Settles-dict_of, Sentence, Entity, NlpResults}
use tei_nlp_converter.Tei.Xml.{Element}
use tei_nlp_converter.Tei.EntityMap.Forward.{EndsLater}
use tei_nlp_converter.Tei.Inline.{TeiConverter}
use tei_nlp_converter.Tei.Inline.Settles.{Settles-field, add_inline_annotations-Settles}
use tei_nlp_converter.Tei.Standoff.Settles.{
  add_standoff_annotations-Settles, add_mixed_annotations-Settles,
}
use tei_nlp_converter.Tei.Header.Settles.{create_header-Settles}
use tei_nlp_converter.Tei.Validate.{validate_nlp_results}
use tei_nlp_converter.Tei.Convert.{
  XmlLibrary, token_total, add_analysis_section, set_declaration, print_pretty, prettify_xml,
  create_fallback_tei, annotate, with_analysis, create_document, convert,
}

-- The XML library comes back from every call.
pub record IsSettling (lib : XmlLibrary) : Type 0 where
  pub tostring : (e : Element) → Settles (lib.tostring e)
  pub pretty : (s : String) → Settles (lib.pretty s)

token_total-Settles : (ss : List (Entry Sentence)) → Settles (token_total ss)
unfolding token_total
token_total-Settles [] = Settles-ok 0
token_total-Settles (e ∷ ss) = Settles-bind _ _ (Settles-dict_of e) λ s _.
    Settles-bind _ _ (Settles-field "tokens" s.tokens)
      λ ts _. Settles-bind _ _ (token_total-Settles ss) λ n _. Settles-ok _

add_analysis_section-Settles : (r : NlpResults) → Settles (add_analysis_section r)
unfolding add_analysis_section
add_analysis_section-Settles r = search (settles_rules, Settles-field, token_total-Settles) depth 9

with_analysis-Settles :
    (c : TeiConverter) (r : NlpResults) (e : Element) → Settles (with_analysis c r e)
unfolding with_analysis
with_analysis-Settles c r e = search (settles_rules, add_analysis_section-Settles)

set_declaration-Settles : (ls : List String) → Settles (set_declaration ls)
unfolding set_declaration
set_declaration-Settles [] = Settles-raise _
set_declaration-Settles (l ∷ ls) = Settles-ok _

module _ (c : TeiConverter) (r : NlpResults)
    (later : (es : List (Entry Entity)) → r.entities ≡ list es → All EndsLater es) where
  annotate-Settles : Settles (annotate c r)
  unfolding annotate
  annotate-Settles =
      Settles-if _
        (Settles-bind _ _ (add_inline_annotations-Settles c _ r later) λ b _. Settles-ok _)
        (Settles-if _
          (Settles-bind _ _ (add_standoff_annotations-Settles c _ r) λ b _. Settles-ok _)
          (Settles-bind _ _ (add_mixed_annotations-Settles c _ r later) λ b _. Settles-ok _))

  create_document-Settles : (now now' : String) → Settles (create_document c now now' r)
  unfolding create_document
  create_document-Settles now now' = Settles-bind _ _ (create_header-Settles c now now' r) λ h _.
      Settles-bind _ _ annotate-Settles
        λ p _. Settles-bind _ _ (with_analysis-Settles c r _) λ t _. Settles-ok _

print_pretty-Settles :
    (lib : XmlLibrary) (s : String) → IsSettling lib → Settles (print_pretty lib s)
unfolding print_pretty
print_pretty-Settles lib s h =
    Settles-bind _ _ (h.pretty s)
      λ p _. Settles-bind _ _ (set_declaration-Settles _) λ ls _. Settles-ok _

prettify_xml-Settles :
    (lib : XmlLibrary) (s : String) → IsSettling lib → Settles (prettify_xml lib s)
unfolding prettify_xml
prettify_xml-Settles lib s h =
    let (text, returned) =
      catch_returns (print_pretty lib s) (λ _. s) (print_pretty-Settles lib s h) in
    rw returned (Settles-ok text)

-- With an XML library that comes back from its calls, `convert` returns a text and raises nothing,
-- whatever keys are missing or of the wrong kind, as long as every entity that has a start and an end
-- ends behind its start.
pub convert_returns :
    (lib : XmlLibrary) (c : TeiConverter) (now now' text : String) (r : NlpResults)
    → IsSettling lib
    → ((es : List (Entry Entity)) → r.entities ≡ list es → All EndsLater es)
    → (document : String) × (convert lib c now now' text r ≡ ok document)
unfolding convert
convert_returns lib c now now' text r h later = elim (Bool-cases (validate_nlp_results r)) [
  | inl valid ↦ rw valid (
      catch_returns _ (λ e. create_fallback_tei c text (message e))
        (Settles-bind _ _ (create_document-Settles c r later now now')
          λ root _. Settles-bind _ _ (h.tostring root) λ s _. prettify_xml-Settles lib s h))
  | inr invalid ↦ rw invalid (create_fallback_tei c text "Invalid NLP results structure", refl)
]
