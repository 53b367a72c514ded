-- ===== src/Tei/Standoff/Settles.antt =====
-- The standoff annotations come back, with elements or with an exception.
use tei_nlp_converter.Base.{
  ℕ, ◌+◌, List, [], ◌∷◌, ◌≡◌, All, Settles, Settles-ok, Settles-item, Settles-bind, settles_rules,
}
use tei_nlp_converter.Tei.Data.{
  Entry, list, Settles-dict_of, Token, Sentence, Entity, Dependency, NlpResults, Schema,
}
use tei_nlp_converter.Tei.Xml.{Element}
use tei_nlp_converter.Tei.EntityMap.Forward.{EndsLater}
use tei_nlp_converter.Tei.Inline.{TeiConverter}
use tei_nlp_converter.Tei.Inline.Settles.{Settles-field, add_inline_annotations-Settles}
use tei_nlp_converter.Tei.Standoff.{
  entity_annotation, entity_annotations, add_standoff_entities, with_lemma, with_pos,
  token_annotation, token_annotations, sentence_annotations, add_standoff_linguistic,
  dependency_link, dependency_links, add_standoff_dependencies, some_dependencies,
  with_dependencies, milestones, with_entities, with_linguistic, add_standoff_annotations,
  add_mixed_annotations,
}

entity_annotation-Settles : (idx : ℕ) (e : Entity) → Settles (entity_annotation idx e)
unfolding entity_annotation
entity_annotation-Settles idx e = search settles_rules depth 9

entity_annotations-Settles :
    (idx : ℕ) (es : List (Entry Entity)) (out : Element) → Settles (entity_annotations idx es out)
unfolding entity_annotations
entity_annotations-Settles idx [] out = Settles-ok out
entity_annotations-Settles idx (e ∷ es) out = Settles-bind _ _ (Settles-dict_of e) λ x _.
    Settles-bind _ _ (entity_annotation-Settles idx x)
      λ a _. entity_annotations-Settles (idx + 1) es _

add_standoff_entities-Settles :
    (s : Element) (es : List (Entry Entity)) → Settles (add_standoff_entities s es)
unfolding add_standoff_entities
add_standoff_entities-Settles s es = search (settles_rules, entity_annotations-Settles)

with_lemma-Settles : (s : Schema) (t : Token) (fs : Element) → Settles (with_lemma s t fs)
unfolding with_lemma
with_lemma-Settles s t fs = search settles_rules

with_pos-Settles : (s : Schema) (t : Token) (fs : Element) → Settles (with_pos s t fs)
unfolding with_pos
with_pos-Settles s t fs = search settles_rules

token_annotation-Settles : (s : Schema) (t : Token) → Settles (token_annotation s t)
unfolding token_annotation
token_annotation-Settles s t = search (settles_rules, with_lemma-Settles, with_pos-Settles) depth 9

token_annotations-Settles :
    (s : Schema) (ts : List Token) (out : Element) → Settles (token_annotations s ts out)
unfolding token_annotations
token_annotations-Settles s [] out = Settles-ok out
token_annotations-Settles s (t ∷ ts) out =
    search (settles_rules, token_annotation-Settles, token_annotations-Settles s ts) depth 7

sentence_annotations-Settles :
    (s : Schema) (ss : List (Entry Sentence)) (out : Element)
    → Settles (sentence_annotations s ss out)
unfolding sentence_annotations
sentence_annotations-Settles s [] out = Settles-ok out
sentence_annotations-Settles s (e ∷ ss) out =
    search
      (
        settles_rules,
        Settles-dict_of,
        Settles-field,
        token_annotations-Settles,
        sentence_annotations-Settles s ss,
      )
      depth 7

add_standoff_linguistic-Settles :
    (c : TeiConverter) (s : Element) (ss : List (Entry Sentence))
    → Settles (add_standoff_linguistic c s ss)
unfolding add_standoff_linguistic
add_standoff_linguistic-Settles c s ss = search (settles_rules, sentence_annotations-Settles)

dependency_link-Settles : (idx : ℕ) (d : Dependency) → Settles (dependency_link idx d)
unfolding dependency_link
dependency_link-Settles idx d = search settles_rules depth 12

dependency_links-Settles :
    (idx : ℕ) (ds : List Dependency) (out : Element) → Settles (dependency_links idx ds out)
unfolding dependency_links
dependency_links-Settles idx [] out = Settles-ok out
dependency_links-Settles idx (d ∷ ds) out =
    Settles-bind _ _ (dependency_link-Settles idx d) λ l _. dependency_links-Settles (idx + 1) ds _

some_dependencies-Settles : (ds : List Dependency) (s : Element) → Settles (some_dependencies ds s)
unfolding some_dependencies add_standoff_dependencies
some_dependencies-Settles [] s = Settles-ok s
some_dependencies-Settles (d ∷ ds) s =
    Settles-bind _ _ (dependency_links-Settles 0 (d ∷ ds) _) λ l _. Settles-ok _

with_dependencies-Settles :
    (c : TeiConverter) (r : NlpResults) (s : Element) → Settles (with_dependencies c r s)
unfolding with_dependencies
with_dependencies-Settles c r s = search (settles_rules, some_dependencies-Settles)

milestones-Settles :
    (n : ℕ) (ss : List (Entry Sentence)) (div : Element) → Settles (milestones n ss div)
unfolding milestones
milestones-Settles n [] div = Settles-ok div
milestones-Settles n (s ∷ ss) div =
    Settles-bind _ _ (Settles-dict_of s)
      λ x _. Settles-bind _ _ (Settles-item "text" x.text) λ y _. milestones-Settles (n + 1) ss _

with_entities-Settles : (es : List (Entry Entity)) (s : Element) → Settles (with_entities es s)
unfolding with_entities
with_entities-Settles [] s = Settles-ok s
with_entities-Settles (e ∷ es) s = add_standoff_entities-Settles s (e ∷ es)

with_linguistic-Settles :
    (c : TeiConverter) (ss : List (Entry Sentence)) (s : Element) → Settles (with_linguistic c ss s)
unfolding with_linguistic
with_linguistic-Settles c ss s = search (settles_rules, add_standoff_linguistic-Settles)

pub add_standoff_annotations-Settles :
    (c : TeiConverter) (body : Element) (r : NlpResults)
    → Settles (add_standoff_annotations c body r)
unfolding add_standoff_annotations
add_standoff_annotations-Settles c body r =
    search
      (
        settles_rules, Settles-field, milestones-Settles, with_entities-Settles,
        with_linguistic-Settles, with_dependencies-Settles,
      )
      depth 12

pub add_mixed_annotations-Settles :
    (c : TeiConverter) (body : Element) (r : NlpResults)
    → ((es : List (Entry Entity)) → r.entities ≡ list es → All EndsLater es)
    → Settles (add_mixed_annotations c body r)
unfolding add_mixed_annotations
add_mixed_annotations-Settles c body r later =
    Settles-bind _ _ (add_inline_annotations-Settles c body r later)
      λ b _. Settles-bind _ _ (with_dependencies-Settles c r _) λ s _. Settles-ok _
