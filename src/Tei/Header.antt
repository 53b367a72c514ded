-- ===== src/Tei/Header.antt =====
-- `_create_root`, `_create_header`, `_add_tag_usage` and `_add_classification` of tei_converter.py.
-- `now` and `now'` are what the two calls of `datetime.now().isoformat()` return.
pub mod Settles
use Prim.Native.String.{◌++◌}
use tei_nlp_converter.Base.{
  ℕ, zero, suc, ◌+◌, String, Bool, true, false, Option, none, some, List, [], ◌∷◌, Dict, get, put,
  string_key, ltb, if◌then◌else◌, length, Result, ok, item, ◌>>=◌, str,
}
use tei_nlp_converter.Tei.Data.{Entry, dict_of, Token, Sentence, Entity, NlpResults, Schema, get_or}
use tei_nlp_converter.Tei.Xml.{Element, element, tei, xml, new, set, set_text, append, node, leaf}
use tei_nlp_converter.Tei.Inline.{TeiConverter, field, element_name}

unfoldable pub create_root : TeiConverter → Element
create_root c =
    let root = set (xml "lang") "en" (set "version" "5.0" (new (tei "TEI"))) in
    elim c.schema.schema_ref [ none ↦ root | some ref ↦ set "schemaRef" ref root ]

-- The tokens that are no punctuation and no space.
pub count_words : List Token → Result ℕ
count_words [] = ok 0
count_words (t ∷ ts) = do
  punct ← item "is_punct" t.is_punct
  other ← (if punct then ok true else item "is_space" t.is_space)
  n ← count_words ts
  ok (if other then n else n + 1)

pub count_puncts : List Token → Result ℕ
count_puncts [] = ok 0
count_puncts (t ∷ ts) = do
  punct ← item "is_punct" t.is_punct
  n ← count_puncts ts
  ok (if punct then n + 1 else n)

-- `sum(… for s in nlp_results['sentences'])`
pub sum_tokens : (List Token → Result ℕ) → List (Entry Sentence) → Result ℕ
sum_tokens f [] = ok 0
sum_tokens f (entry ∷ rest) = do
  s ← dict_of entry
  tokens ← field "tokens" s.tokens
  n ← f tokens
  m ← sum_tokens f rest
  ok (n + m)

-- One more use of the element of each entity; the label is looked up as it is written.
count_entities : Dict String String → List (Entry Entity) → Dict String ℕ → Result (Dict String ℕ)
count_entities mappings [] counts = ok counts
count_entities mappings (entry ∷ rest) counts = do
  e ← dict_of entry
  label ← item "label" e.label
  let name = element_name mappings label
  count_entities mappings rest (put name (get_or (get name counts) 0 + 1) counts)

unfoldable pub tag_counts : TeiConverter → NlpResults → Result (Dict String ℕ)
unfolding count_words count_puncts sum_tokens count_entities
tag_counts c r = do
  sentences ← field "sentences" r.sentences
  words ← sum_tokens count_words sentences
  puncts ← sum_tokens count_puncts sentences
  entities ← field "entities" r.entities
  count_entities c.entity_mappings entities
      (("w", words) ∷ ("pc", puncts) ∷ ("s", length sentences) ∷ [])

-- The `tagUsage` elements, for the tags that occur.
usages : Dict String ℕ → Element → Element
usages [] namespace = namespace
usages ((tag, count) ∷ rest) namespace = usages rest (
    if ltb 0 count
    then append namespace (node "tagUsage" (("gi", tag) ∷ ("occurs", str count) ∷ []) [])
    else namespace)

unfoldable pub add_tag_usage : TeiConverter → Element → NlpResults → Result Element
unfolding tag_counts usages
add_tag_usage c namespace r = do counts ← tag_counts c r; ok (usages counts namespace)

unfoldable pub add_classification : TeiConverter → Element → Result Element
add_classification c class_decl = do
  domain ← item "domain" c.schema.domain
  let description = get_or c.schema.description (domain ++ " domain texts")
  let category = node "category" ((xml "id", domain) ∷ []) (leaf "catDesc" [] description ∷ [])
  ok (append class_decl (node "taxonomy" ((xml "id", "domain") ∷ []) (category ∷ [])))

-- The `fileDesc` element: title, edition, publication and source.
file_desc : TeiConverter → String → String → Element
file_desc c now now' =
    let title = leaf "title" [] (get_or c.schema.title "NLP Processed Text") in
    let resp_stmt = node "respStmt" [] (
      leaf "resp" [] "NLP Processing and TEI Encoding" ∷ leaf "name" [] "TEI NLP Converter" ∷ []) in
    let heads : List Element = elim c.schema.author [
      | none ↦ title ∷ resp_stmt ∷ []
      | some author ↦ title ∷ leaf "author" [] author ∷ resp_stmt ∷ []
    ] in
    let date = node "date" (("when", now) ∷ []) [] in
    let edition = append (set_text "Automated NLP Edition" (new (tei "edition"))) date in
    let availability =
      node "availability" (("status", "free") ∷ [])
        (leaf "p" [] "Available for research and educational purposes" ∷ []) in
    node "fileDesc" [] (
      node "titleStmt" [] heads
      ∷ node "editionStmt" [] (edition ∷ [])
      ∷ node "publicationStmt" [] (
          leaf "publisher" [] "TEI NLP Converter System"
          ∷ node "date" (("when", now') ∷ []) []
          ∷ availability
          ∷ [])
      ∷ node "sourceDesc" [] (leaf "p" [] "Generated from NLP processing of digital text" ∷ [])
      ∷ [])

-- The `profileDesc` element: language and text class.
profile_desc : TeiConverter → NlpResults → Result Element
profile_desc c r =
    let language = leaf "language" (("ident", get_or r.language "en") ∷ []) "English" in
    let lang_usage = node "langUsage" [] (language ∷ []) in
    elim c.schema.text_class [
      | false ↦ ok (node "profileDesc" [] (lang_usage ∷ []))
      | true ↦ do
        domain ← item "domain" c.schema.domain
        let keywords = node "keywords" (("scheme", "#domain") ∷ []) (leaf "term" [] domain ∷ [])
        ok (node "profileDesc" [] (lang_usage ∷ node "textClass" [] (keywords ∷ []) ∷ []))
    ]

-- `classDecl` where the schema has a classification.
with_classification : TeiConverter → Element → Result Element
with_classification c encoding_desc = elim c.schema.classification [
  | false ↦ ok encoding_desc
  | true ↦ do
    class_decl ← add_classification c (new (tei "classDecl"))
    ok (append encoding_desc class_decl)
]

unfoldable pub create_header : TeiConverter → String → String → NlpResults → Result Element
unfolding file_desc profile_desc add_tag_usage with_classification
create_header c now now' r = do
  let project = leaf "p" [] ("Processed with domain schema: " ++ get_or c.schema.domain "default")
  namespace ← add_tag_usage c (node "namespace" (("name", "http://www.tei-c.org/ns/1.0") ∷ []) []) r
  encoding_desc ← with_classification c (
      node "encodingDesc" []
        (node "projectDesc" [] (project ∷ []) ∷ node "tagsDecl" [] (namespace ∷ []) ∷ []))
  profile ← profile_desc c r
  ok (node "teiHeader" [] (file_desc c now now' ∷ encoding_desc ∷ profile ∷ []))
