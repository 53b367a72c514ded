-- ===== src/Tei/Standoff.antt =====
-- The standoff annotations of tei_converter.py, and `_add_mixed_annotations`.
pub mod Settles
use Prim.Native.String.{◌++◌, count}
use tei_nlp_converter.Base.{
  ℕ, zero, suc, ◌+◌, String, Bool, true, false, ◌||◌, Option, none, some, List, [], ◌∷◌,
  if◌then◌else◌, length, Result, ok, item, ◌>>=◌, str,
}
use tei_nlp_converter.Tei.Data.{
  Entry, dict_of, Token, Sentence, Entity, Dependency, NlpResults, Schema, get_or,
}
use tei_nlp_converter.Tei.Xml.{Element, tei, xml, new, append, node, leaf}
use tei_nlp_converter.Tei.Inline.{TeiConverter, field, add_inline_annotations}

-- The annotation of the entity with index `idx`.
entity_annotation : ℕ → Entity → Result Element
entity_annotation idx e = do
  label ← item "label" e.label
  start ← item "start_char" e.start_char
  end ← item "end_char" e.end_char
  text ← item "text" e.text
  let attrib =
      (xml "id", "ent" ++ str (idx + 1))
      ∷ ("type", "named-entity")
      ∷ ("subtype", label)
      ∷ ("target", "#char_" ++ str start ++ "_" ++ str end)
      ∷ []
  let note = leaf "note" [] text
  ok (
      node "annotation" attrib (elim e.confidence [
        | none ↦ note ∷ []
        | some s ↦ node "certainty" (("degree", s.shown) ∷ []) [] ∷ note ∷ []
      ]))

entity_annotations : ℕ → List (Entry Entity) → Element → Result Element
unfolding entity_annotation
entity_annotations idx [] out = ok out
entity_annotations idx (entry ∷ rest) out = do
  e ← dict_of entry
  annotation ← entity_annotation idx e
  entity_annotations (idx + 1) rest (append out annotation)

unfoldable pub add_standoff_entities : Element → List (Entry Entity) → Result Element
unfolding entity_annotations
add_standoff_entities standoff entities = do
  annotations ← entity_annotations 0 entities (node "listAnnotation" (("type", "entities") ∷ []) [])
  ok (append standoff annotations)

-- `fs` with the feature of the lemma and of the part of speech, where the schema wants them.
with_lemma : Schema → Token → Element → Result Element
with_lemma s t fs =
    if get_or s.include_lemma true
    then (do
      lemma ← item "lemma" t.lemma
      ok (append fs (node "f" (("name", "lemma") ∷ []) (leaf "string" [] lemma ∷ []))))
    else ok fs

with_pos : Schema → Token → Element → Result Element
with_pos s t fs =
    if get_or s.include_pos true
    then (do
      pos ← item "pos" t.pos
      ok (
          append fs
            (node "f" (("name", "pos") ∷ []) (node "symbol" (("value", pos) ∷ []) [] ∷ []))))
    else ok fs

token_annotation : Schema → Token → Result Element
unfolding with_lemma with_pos
token_annotation s t = do
  i ← item "i" t.i
  idx ← item "idx" t.idx
  text ← item "text" t.text
  fs ← with_lemma s t (new (tei "fs"))
  fs' ← with_pos s t fs
  let attrib =
      (xml "id", "tok" ++ str (i + 1))
      ∷ ("type", "token")
      ∷ ("target", "#char_" ++ str idx ++ "_" ++ str (idx + count text))
      ∷ []
  ok (node "annotation" attrib (fs' ∷ []))

-- Space tokens are passed over.
token_annotations : Schema → List Token → Element → Result Element
unfolding token_annotation
token_annotations s [] out = ok out
token_annotations s (t ∷ ts) out = do
  space ← item "is_space" t.is_space
  out' ← (if space then ok out else (token_annotation s t >>= λ a. ok (append out a)))
  token_annotations s ts out'

sentence_annotations : Schema → List (Entry Sentence) → Element → Result Element
unfolding token_annotations
sentence_annotations s [] out = ok out
sentence_annotations s (entry ∷ rest) out = do
  sentence ← dict_of entry
  tokens ← field "tokens" sentence.tokens
  out' ← token_annotations s tokens out
  sentence_annotations s rest out'

unfoldable pub add_standoff_linguistic :
    TeiConverter → Element → List (Entry Sentence) → Result Element
unfolding sentence_annotations
add_standoff_linguistic c standoff sentences = do
  annotations ←
      sentence_annotations c.schema sentences
        (node "listAnnotation" (("type", "linguistic") ∷ []) [])
  ok (append standoff annotations)

dependency_link : ℕ → Dependency → Result Element
dependency_link idx d = do
  dep ← item "dep" d.dep
  from ← item "from" d.from
  to ← item "to" d.to
  from_text ← item "from_text" d.from_text
  to_text ← item "to_text" d.to_text
  let attrib =
      (xml "id", "dep" ++ str (idx + 1))
      ∷ ("type", dep)
      ∷ ("target", "#w" ++ str (from + 1) ++ " #w" ++ str (to + 1))
      ∷ []
  ok (node "link" attrib (leaf "note" [] (from_text ++ " --" ++ dep ++ "--> " ++ to_text) ∷ []))

dependency_links : ℕ → List Dependency → Element → Result Element
unfolding dependency_link
dependency_links idx [] out = ok out
dependency_links idx (d ∷ rest) out = do
  link ← dependency_link idx d
  dependency_links (idx + 1) rest (append out link)

unfoldable pub add_standoff_dependencies : Element → List Dependency → Result Element
unfolding dependency_links
add_standoff_dependencies standoff dependencies = do
  links ←
      dependency_links 0 dependencies (node "linkGrp" (("type", "syntactic-dependencies") ∷ []) [])
  ok (append standoff links)

-- An empty list adds no group.
some_dependencies : List Dependency → Element → Result Element
some_dependencies [] standoff = ok standoff
some_dependencies (d ∷ ds) standoff = add_standoff_dependencies standoff (d ∷ ds)

-- `if include_dependencies and nlp_results['dependencies']`: the key is read only if they are wanted.
with_dependencies : TeiConverter → NlpResults → Element → Result Element
unfolding some_dependencies
with_dependencies c r standoff =
    if get_or c.schema.include_dependencies true
    then (do
      dependencies ← item "dependencies" r.dependencies
      some_dependencies dependencies standoff)
    else ok standoff

-- A milestone and the text, for each sentence.
milestones : ℕ → List (Entry Sentence) → Element → Result Element
milestones n [] div = ok div
milestones n (entry ∷ rest) div = do
  sentence ← dict_of entry
  text ← item "text" sentence.text
  let milestone =
      node "milestone"
        (("unit", "sentence") ∷ ("n", str (n + 1)) ∷ (xml "id", "sent" ++ str (n + 1)) ∷ []) []
  let p = leaf "p" ((xml "id", "p" ++ str (n + 1)) ∷ []) text
  milestones (n + 1) rest (append (append div milestone) p)

with_entities : List (Entry Entity) → Element → Result Element
with_entities [] standoff = ok standoff
with_entities (e ∷ es) standoff = add_standoff_entities standoff (e ∷ es)

with_linguistic : TeiConverter → List (Entry Sentence) → Element → Result Element
with_linguistic c sentences standoff =
    if get_or c.schema.include_pos true || get_or c.schema.include_lemma true
    then add_standoff_linguistic c standoff sentences
    else ok standoff

-- The new `text` and `body`, the body without the place that it has in the text.
unfoldable pub add_standoff_annotations :
    TeiConverter → Element → NlpResults → Result (Element × Element)
unfolding milestones with_entities with_linguistic with_dependencies
add_standoff_annotations c body r = do
  sentences ← field "sentences" r.sentences
  div ← milestones 0 sentences (new (tei "div"))
  entities ← field "entities" r.entities
  standoff ← with_entities entities (new (tei "standOff"))
  standoff' ← with_linguistic c sentences standoff
  standoff'' ← with_dependencies c r standoff'
  ok (append body div, standoff'')

unfoldable pub add_mixed_annotations :
    TeiConverter → Element → NlpResults → Result (Element × Element)
unfolding with_dependencies
add_mixed_annotations c body r = do
  body' ← add_inline_annotations c body r
  standoff ← with_dependencies c r (new (tei "standOff"))
  ok (body', standoff)
