-- ===== src/Tei/Inline.antt =====
-- The inline annotations of tei_converter.py: `_add_token_element`, `_create_entity_element`,
-- `_process_sentence_tokens` and `_add_inline_annotations`.
pub mod Text
pub mod Progress
pub mod Fuel
pub mod Whole
pub mod Settles
pub mod Hangs
use Prim.Native.String.{◌++◌}
use mathlib.Core.List as Seq
use tei_nlp_converter.Base.{
  ℕ, zero, suc, ◌+◌, String, Bool, true, false, Option, none, some, List, [], ◌∷◌, Dict, get,
  nat_key, string_key, ◌==◌, ltb, leb, if◌then◌else◌, length, Result, ok, raise, diverges, item,
  ◌>>=◌, type_error, key_error, Returns, Returns-ok, ◌≡◌, str, upper, lower,
}
use tei_nlp_converter.Tei.Data.{
  Field, missing, not_list, list, Entry, dict_of, Score, Token, Sentence, Entity, NlpResults,
  Schema, get_or,
}
use tei_nlp_converter.Tei.Xml.{Element, tei, xml, new, set, set_text, set_tail, append, node}
use tei_nlp_converter.Tei.EntityMap.{Mark, EntityMap, build_entity_map}

-- A `TEIConverter`: its schema, and the element for each entity type.
pub record TeiConverter : Type 0 where
  pub schema : Schema
  pub entity_mappings : Dict String String

-- `d['k']` where the value is to be a list of dictionaries: what iterating over it does.
abbrev pub field {ℓ} : {A : Type ℓ} → String → Field A → Result (List A)
field key missing = raise (key_error key)
field key not_list = raise (type_error "not a list")
field key (list xs) = ok xs

pub Returns-field {ℓ} :
    {A : Type ℓ} (key : String) (f : Field A) {xs : List A}
    → f ≡ list xs
    → Returns (λ ys. ys ≡ xs) (field key f)
Returns-field key missing h = absurd (cc h)
Returns-field key not_list h = absurd (cc h)
Returns-field key (list ys) h = Returns-ok ys (cc h)

-- `if flag: elem.set(name, value)`
abbrev pub set_if : Bool → String → String → Option String → Element → Result Element
set_if true name key value e = do v ← item key value; ok (set name v e)
set_if false name key value e = ok e

-- `xml:id`, the text, and the trailing space of the new element
finish_token : Token → Element → Result Element
finish_token t e = do
  i ← item "i" t.i
  text ← item "text" t.text
  let named = set_text text (set (xml "id") ("w" ++ str (i + 1)) e)
  ok (if get_or t.whitespace " " == " " then set_tail " " named else named)

-- The attributes of a word.
word : Schema → Token → Result Element
word s t = do
  e ← set_if (get_or s.include_lemma true) "lemma" "lemma" t.lemma (new (tei "w"))
  e' ← set_if (get_or s.include_pos true) "pos" "pos" t.pos e
  let morph = if get_or s.include_morph false then t.morph else none
  let e'' : Element = elim morph [ none ↦ e' | some m ↦ set "msd" m e' ]
  set_if (get_or s.include_dep false) "function" "dep" t.dep e''

-- What is no punctuation, by `is_space`: pure whitespace is skipped.
add_word : TeiConverter → Element → Token → Bool → Result Element
unfolding word finish_token
add_word c parent t true = ok parent
add_word c parent t false = do w ← word c.schema t; e ← finish_token t w; ok (append parent e)

-- By `is_punct`.
add_either : TeiConverter → Element → Token → Bool → Result Element
unfolding add_word
add_either c parent t true = do e ← finish_token t (new (tei "pc")); ok (append parent e)
add_either c parent t false = do space ← item "is_space" t.is_space; add_word c parent t space

unfoldable pub add_token_element : TeiConverter → Element → Token → Result Element
unfolding add_either
add_token_element c parent t = do punct ← item "is_punct" t.is_punct; add_either c parent t punct

unfoldable pub confidence_to_certainty : Score → String
confidence_to_certainty s =
    if leb 900 s.thousandths
    then "high"
    else if leb 700 s.thousandths
    then "medium"
    else if leb 500 s.thousandths
    then "low"
    else "unknown"

-- The element for a type: that of the mapping, of `DEFAULT`, or `name`.
pub element_name : Dict String String → String → String
element_name mappings entity_type =
    get_or (get entity_type mappings) (get_or (get "DEFAULT" mappings) "name")

unfoldable pub create_entity_element : TeiConverter → Entity → Result Element
unfolding confidence_to_certainty element_name
create_entity_element c e = do
  label ← item "label" e.label
  let entity_type = upper label
  let name = element_name c.entity_mappings entity_type
  let plain = new (tei name)
  let typed = if name == "name" then set "type" (lower entity_type) plain else plain
  let sure : Element = elim e.confidence [
    | none ↦ typed
    | some s ↦ set "cert" (confidence_to_certainty s) typed
  ]
  ok (elim e.kb_id [ none ↦ sure | some k ↦ set "ref" k sure ])

-- The inner loop: the tokens before the end of the entity, and those that are left.
pub collect : TeiConverter → ℕ → List Token → Element → Result (Element × List Token)
collect c end [] e = ok (e, [])
collect c end (t ∷ ts) e = do
  i ← item "i" t.i
  let rest = add_token_element c e t >>= λ e'. collect c end ts e'
  if ltb i end then rest else ok (e, t ∷ ts)

-- The entity that starts at a token.
unfoldable pub starting : EntityMap → ℕ → Option Entity
starting m i = elim (get i m) [
  | none ↦ none
  | some mark ↦ if mark.is_start then some mark.entity else none
]

-- One round of the outer loop, at a token that starts no entity, and at one that starts an entity.
round_at :
    TeiConverter → Element → Token → List Token → Option Entity → Result (Element × List Token)
round_at c container t ts none = do
  container' ← add_token_element c container t
  ok (container', ts)
round_at c container t ts (some entity) = do
  elem ← create_entity_element c entity
  end ← item "end" entity.end
  (elem', rest) ← collect c end (t ∷ ts) elem
  ok (append container elem', rest)

pub round : TeiConverter → EntityMap → Element → Token → List Token → Result (Element × List Token)
unfolding round_at
round c m container t ts = do i ← item "i" t.i; round_at c container t ts (starting m i)

-- The outer loop, on fuel.
pub loop : ℕ → TeiConverter → EntityMap → Element → List Token → Result Element
loop fuel c m container [] = ok container
loop zero c m container (t ∷ ts) = diverges
loop (suc fuel) c m container (t ∷ ts) = do
  (container', rest) ← round c m container t ts
  loop fuel c m container' rest

-- A round that takes no token is repeated for ever, so the number of tokens is fuel enough.
pub process_sentence_tokens : TeiConverter → EntityMap → Element → Sentence → Result Element
process_sentence_tokens c m container s = do
  tokens ← field "tokens" s.tokens
  loop (length tokens) c m container tokens

-- The element of the sentence with this index.
new_container : TeiConverter → ℕ → Element
new_container c n =
    let name = if get_or c.schema.use_paragraphs false then "p" else "s" in
    set "n" (str (n + 1)) (set (xml "id") ("s" ++ str (n + 1)) (new (tei name)))

-- The sentences from number `n` on.
add_sentences : TeiConverter → EntityMap → ℕ → List (Entry Sentence) → Element → Result Element
unfolding process_sentence_tokens new_container
add_sentences c m n [] div = ok div
add_sentences c m n (entry ∷ rest) div = do
  sentence ← dict_of entry
  container ← process_sentence_tokens c m (new_container c n) sentence
  add_sentences c m (n + 1) rest (append div container)

new_div : Element
new_div = set "n" "1" (set "type" "chapter" (new (tei "div")))

unfoldable pub add_inline_annotations : TeiConverter → Element → NlpResults → Result Element
unfolding new_div add_sentences loop round collect starting
add_inline_annotations c body r = do
  entities ← field "entities" r.entities
  m ← build_entity_map entities
  sentences ← field "sentences" r.sentences
  div' ← add_sentences c m 0 sentences new_div
  ok (append body div')
