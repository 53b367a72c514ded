-- ===== src/Tei/Convert.antt =====
-- `__init__`, `convert`, `_create_fallback_tei`, `_add_analysis_section` and `_prettify_xml` of
-- tei_converter.py. `XmlLibrary` stands for xml.etree's serialiser and defusedxml's parser.
pub mod Outcome
use Prim.Native.String.{◌++◌}
use text.Mathlib.Text.{starts_with}
use tei_nlp_converter.Base.{
  ℕ, zero, suc, ◌+◌, String, Bool, true, false, not, ◌&&◌, ◌||◌, Option, none, some, List, [], ◌∷◌,
  Dict, ◌==◌, string_key, nat_beq, leb, if◌then◌else◌, length, Exc, Result, ok, raise, diverges,
  value_error, other_error, index_error, message, catch, item, ◌>>=◌, str, rstrip, split_lines,
  join_lines,
}
use tei_nlp_converter.Tei.Data.{
  Field, Entry, dict_of, Token, Sentence, Entity, NlpResults, Schema, get_or,
}
use tei_nlp_converter.Tei.Xml.{Element, tei, new, set_text, append, node, leaf}
use tei_nlp_converter.Tei.Escape.{escape_xml}
use tei_nlp_converter.Tei.Validate.{validate_schema, validate_nlp_results}
use tei_nlp_converter.Tei.Header.{create_root, create_header}
use tei_nlp_converter.Tei.Inline.{TeiConverter, field, add_inline_annotations}
use tei_nlp_converter.Tei.Standoff.{add_standoff_annotations, add_mixed_annotations}

-- `ET.tostring`, and `parseString(…).toprettyxml(indent="  ")`.
pub record XmlLibrary : Type 0 where
  pub tostring : Element → Result String
  pub pretty : String → Result String

abbrev pub default_mappings : Dict String String
default_mappings =
    ("PERSON", "persName")
    ∷ ("PER", "persName")
    ∷ ("LOC", "placeName")
    ∷ ("GPE", "placeName")
    ∷ ("ORG", "orgName")
    ∷ ("DATE", "date")
    ∷ ("TIME", "time")
    ∷ ("MONEY", "measure")
    ∷ ("DEFAULT", "name")
    ∷ []

unfoldable pub init : Schema → Result TeiConverter
init schema = do
  checked ← validate_schema schema
  ok (record { schema = schema; entity_mappings = get_or schema.entity_mappings default_mappings })

-- The tokens of all sentences.
token_total : List (Entry Sentence) → Result ℕ
token_total [] = ok 0
token_total (entry ∷ rest) = do
  s ← dict_of entry
  tokens ← field "tokens" s.tokens
  n ← token_total rest
  ok (length tokens + n)

-- The `item` elements of the statistics: the label is a child, the number is the text before it.
statistics : List (String × ℕ) → Element → Element
statistics [] out = out
statistics ((label, value) ∷ rest) out =
    statistics rest
      (append out (append (set_text (str value) (new (tei "item"))) (leaf "label" [] label)))

unfoldable pub add_analysis_section : NlpResults → Result Element
unfolding token_total statistics
add_analysis_section r = do
  sentences ← field "sentences" r.sentences
  tokens ← token_total sentences
  entities ← field "entities" r.entities
  dependencies ← item "dependencies" r.dependencies
  let stats =
      statistics
        (("Sentences", length sentences)
          ∷ ("Tokens", tokens)
          ∷ ("Entities", length entities)
          ∷ ("Dependencies", length dependencies)
          ∷ ("Noun Phrases", get_or r.noun_chunks 0)
          ∷ [])
        (node "list" (("type", "statistics") ∷ []) [])
  let div =
      node "div" (("type", "analysis") ∷ []) (leaf "head" [] "NLP Analysis Results" ∷ stats ∷ [])
  ok (node "back" [] (div ∷ []))

abbrev declaration : String
declaration = "<?xml version=\"1.0\" encoding=\"UTF-8\"?>"

-- The lines that are not blank, without the blanks at their ends.
clean_lines : List String → List String
clean_lines [] = []
clean_lines (l ∷ ls) = let rest = clean_lines ls in if rstrip l == "" then rest else rstrip l ∷ rest

-- `lines[0]` raises where there is no line.
set_declaration : List String → Result (List String)
set_declaration [] = raise index_error
set_declaration (l ∷ ls) = ok ((if starts_with l "<?xml" then declaration else l) ∷ ls)

-- The body of the `try` in `_prettify_xml`.
print_pretty : XmlLibrary → String → Result String
unfolding clean_lines set_declaration
print_pretty lib xml_str = do
  pretty_xml ← lib.pretty xml_str
  lines ← set_declaration (clean_lines (split_lines pretty_xml))
  ok (join_lines lines)

-- If anything fails, the text that was given.
unfoldable pub prettify_xml : XmlLibrary → String → Result String
unfolding print_pretty
prettify_xml lib xml_str = catch (print_pretty lib xml_str) (λ _. ok xml_str)

unfoldable pub create_fallback_tei : TeiConverter → String → String → String
create_fallback_tei c text error =
    "<?xml version=\"1.0\" encoding=\"UTF-8\"?>\n<TEI xmlns=\"http://www.tei-c.org/ns/1.0\">\n"
    ++ ("  <teiHeader>\n    <fileDesc>\n      <titleStmt>\n        <title>Processed Text - "
        ++ (get_or c.schema.domain "default"
            ++ ("</title>\n      </titleStmt>\n      <publicationStmt>\n        "
                ++ ("<p>Generated by TEI NLP Converter (fallback mode)</p>\n      </publicationStmt>\n      "
                    ++ ("<sourceDesc>\n        <p>Automated processing with error: "
                        ++ (escape_xml error
                            ++ ("</p>\n      </sourceDesc>\n    </fileDesc>\n  </teiHeader>\n  <text>\n    <body>\n      <p>"
                                ++ (escape_xml text
                                    ++ "</p>\n    </body>\n  </text>\n</TEI>"))))))))

-- The body and what stands behind it in the text element.
annotate : TeiConverter → NlpResults → Result (List Element)
annotate c r =
    let strategy = get_or c.schema.annotation_strategy "inline" in
    if strategy == "inline"
    then (do body ← add_inline_annotations c (new (tei "body")) r; ok (body ∷ []))
    else if strategy == "standoff"
    then (do
      (body, standoff) ← add_standoff_annotations c (new (tei "body")) r
      ok (body ∷ standoff ∷ []))
    else (do
      (body, standoff) ← add_mixed_annotations c (new (tei "body")) r
      ok (body ∷ standoff ∷ []))

with_analysis : TeiConverter → NlpResults → Element → Result Element
with_analysis c r text_elem =
    if get_or c.schema.include_analysis false
    then (do back ← add_analysis_section r; ok (append text_elem back))
    else ok text_elem

-- The tree of the document.
unfoldable pub create_document : TeiConverter → String → String → NlpResults → Result Element
unfolding annotate with_analysis
create_document c now now' r = do
  header ← create_header c now now' r
  parts ← annotate c r
  text_elem ← with_analysis c r (node "text" [] parts)
  ok (append (append (create_root c) header) text_elem)

-- Any exception on the way gives the fallback document, with its message.
unfoldable pub convert :
    XmlLibrary → TeiConverter → String → String → String → NlpResults → Result String
unfolding create_document
convert lib c now now' text r =
    if validate_nlp_results r
    then catch
        (do
          root ← create_document c now now' r
          xml_str ← lib.tostring root
          prettify_xml lib xml_str)
        (λ e. ok (create_fallback_tei c text (message e)))
    else ok (create_fallback_tei c text "Invalid NLP results structure")
