-- ===== src/Tei/Header/Settles.antt =====
-- The header comes back, with an element or with an exception.
use tei_nlp_converter.Base.{
  ℕ, String, true, List, [], ◌∷◌, Dict, Result, Settles, Settles-ok, Settles-item, Settles-if,
  Settles-bind, settles_rules, Bool-cases, inl, inr,
}
use tei_nlp_converter.Tei.Data.{Entry, Settles-dict_of, Token, Sentence, Entity, NlpResults}
use tei_nlp_converter.Tei.Xml.{Element}
use tei_nlp_converter.Tei.Inline.{TeiConverter}
use tei_nlp_converter.Tei.Inline.Settles.{Settles-field}
use tei_nlp_converter.Tei.Header.{
  count_words, count_puncts, sum_tokens, count_entities, tag_counts, add_classification,
  profile_desc, with_classification, create_header,
}

count_words-Settles : (ts : List Token) → Settles (count_words ts)
unfolding count_words
count_words-Settles [] = Settles-ok 0
count_words-Settles (t ∷ ts) = Settles-bind _ _ (Settles-item "is_punct" t.is_punct) λ punct _.
    Settles-bind _ _ (Settles-if punct (Settles-ok true) (Settles-item "is_space" t.is_space))
      λ other _. Settles-bind _ _ (count_words-Settles ts) λ n _. Settles-ok _

count_puncts-Settles : (ts : List Token) → Settles (count_puncts ts)
unfolding count_puncts
count_puncts-Settles [] = Settles-ok 0
count_puncts-Settles (t ∷ ts) =
    Settles-bind _ _ (Settles-item "is_punct" t.is_punct)
      λ punct _. Settles-bind _ _ (count_puncts-Settles ts) λ n _. Settles-ok _

sum_tokens-Settles :
    (f : List Token → Result ℕ) (ss : List (Entry Sentence))
    → ((ts : List Token) → Settles (f ts))
    → Settles (sum_tokens f ss)
unfolding sum_tokens
sum_tokens-Settles f [] h = Settles-ok 0
sum_tokens-Settles f (e ∷ ss) h = Settles-bind _ _ (Settles-dict_of e) λ s _.
    Settles-bind _ _ (Settles-field "tokens" s.tokens) λ ts _.
      Settles-bind _ _ (h ts)
        λ n _. Settles-bind _ _ (sum_tokens-Settles f ss h) λ m _. Settles-ok _

count_entities-Settles :
    (mappings : Dict String String) (es : List (Entry Entity)) (counts : Dict String ℕ)
    → Settles (count_entities mappings es counts)
unfolding count_entities
count_entities-Settles mappings [] counts = Settles-ok counts
count_entities-Settles mappings (e ∷ es) counts = Settles-bind _ _ (Settles-dict_of e) λ x _.
    Settles-bind _ _ (Settles-item "label" x.label) λ l _. count_entities-Settles mappings es _

tag_counts-Settles : (c : TeiConverter) (r : NlpResults) → Settles (tag_counts c r)
unfolding tag_counts
tag_counts-Settles c r = Settles-bind _ _ (Settles-field "sentences" r.sentences) λ ss _.
    Settles-bind _ _ (sum_tokens-Settles _ ss count_words-Settles) λ w _.
      Settles-bind _ _ (sum_tokens-Settles _ ss count_puncts-Settles) λ p _.
        Settles-bind _ _ (Settles-field "entities" r.entities) λ es _. count_entities-Settles _ es _

add_classification-Settles : (c : TeiConverter) (e : Element) → Settles (add_classification c e)
unfolding add_classification
add_classification-Settles c e = search settles_rules

with_classification-Settles : (c : TeiConverter) (e : Element) → Settles (with_classification c e)
unfolding with_classification
with_classification-Settles c e = elim (Bool-cases c.schema.classification) [
  | inl y ↦ rw (y, with_classification) (search (settles_rules, add_classification-Settles))
  | inr n ↦ rw (n, with_classification) (Settles-ok e)
]

profile_desc-Settles : (c : TeiConverter) (r : NlpResults) → Settles (profile_desc c r)
unfolding profile_desc
profile_desc-Settles c r = elim (Bool-cases c.schema.text_class) [
  | inl y ↦ rw (y, profile_desc) (search settles_rules)
  | inr n ↦ rw (n, profile_desc) (Settles-ok _)
]

pub create_header-Settles :
    (c : TeiConverter) (now now' : String) (r : NlpResults) → Settles (create_header c now now' r)
unfolding create_header
create_header-Settles c now now' r =
    Settles-bind _ _ (Settles-bind _ _ (tag_counts-Settles c r) λ k _. Settles-ok _) λ n _.
      Settles-bind _ _ (with_classification-Settles c _)
        λ e _. Settles-bind _ _ (profile_desc-Settles c r) λ p _. Settles-ok _
