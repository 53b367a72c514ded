-- ===== src/Tei/Inline/Text.antt =====
-- The text of an inline container is that of its tokens, whatever the entities are.
use Prim.Native.String.{◌++◌}
use text.Mathlib.TextLemmas.{append-nil, append_assoc, nil-append}
use tei_nlp_converter.Base.{
  ℕ, zero, suc, String, Bool, true, false, Option, none, some, List, [], ◌∷◌, Dict, put, string_key,
  ◌==◌, ltb, if◌then◌else◌, ok, ◌>>=◌, ◌≡◌, refl, sym, ◌∙◌, ap, length, Ensures, Ensures-bind,
  Ensures-ok, Ensures-raise, Ensures-item, Ensures-if, Ensures-map, upper, lower,
}
use tei_nlp_converter.Tei.Data.{list, Token, Sentence, Entity, Schema, get_or}
use tei_nlp_converter.Tei.Xml.{
  Element, element, nil, set, set_tail, append, tail_of, itertext, itertext-append,
}
use tei_nlp_converter.Tei.EntityMap.{EntityMap}
use tei_nlp_converter.Tei.Inline.{
  TeiConverter, set_if, finish_token, word, add_word, add_either, add_token_element,
  confidence_to_certainty, create_entity_element, collect, starting, round_at, round, loop,
  process_sentence_tokens,
}

-- A token as it is written: its text, and a space unless `whitespace_` is something else.
abbrev shown : Token → String
shown t = get_or t.text "" ++ (if get_or t.whitespace " " == " " then " " else "")

-- Spaces that are no punctuation are left out.
pub token_text : Token → String
token_text t =
    if get_or t.is_punct false then shown t else if get_or t.is_space false then "" else shown t

pub tokens_text : List Token → String
tokens_text [] = ""
tokens_text (t ∷ ts) = token_text t ++ tokens_text ts

-- An element that has attributes only.
data IsBare : Element → Type 0 where
  bare : (tag : String) (attrib : Dict String String) → IsBare (element tag attrib none none nil)

set-IsBare : (name value : String) {e : Element} → IsBare e → IsBare (set name value e)
set-IsBare name value (bare tag attrib) = bare tag (put name value attrib)

itertext_bare : {e : Element} → IsBare e → (itertext e ≡ "") × (tail_of e ≡ "")
unfolding itertext
itertext_bare (bare tag attrib) = (refl, refl)

set_if-IsBare :
    (flag : Bool) (name key : String) (value : Option String) {e : Element}
    → IsBare e
    → Ensures IsBare (set_if flag name key value e)
unfolding ◌>>=◌
set_if-IsBare true name key none b = Ensures-raise _
set_if-IsBare true name key (some v) b = Ensures-ok _ (set-IsBare name v b)
set_if-IsBare false name key value b = Ensures-ok _ b

with_morph-IsBare :
    (m : Option String) {e : Element}
    → IsBare e
    → IsBare (elim m [ none ↦ e | some m ↦ set "msd" m e ])
with_morph-IsBare none b = b
with_morph-IsBare (some m) b = set-IsBare "msd" m b

word-IsBare : (s : Schema) (t : Token) → Ensures IsBare (word s t)
unfolding word
word-IsBare s t = Ensures-bind _ _ (set_if-IsBare _ _ _ t.lemma (bare _ _)) λ e b.
    Ensures-bind _ _ (set_if-IsBare _ _ _ t.pos b)
      λ e' b'. set_if-IsBare _ _ _ t.dep (with_morph-IsBare _ b')

spaced_text :
    (b : Bool) (tag : String) (attrib : Dict String String) (x : String)
    → let e =
        (if b
          then set_tail " " (element tag attrib (some x) none nil)
          else element tag attrib (some x) none nil) in
      itertext e ++ tail_of e ≡ x ++ (if b then " " else "")
unfolding itertext
spaced_text true tag attrib x = simp append-nil
spaced_text false tag attrib x = simp append-nil

itertext-finish_token :
    (t : Token) {e : Element}
    → IsBare e
    → Ensures (λ e'. itertext e' ++ tail_of e' ≡ shown t) (finish_token t e)
unfolding finish_token
itertext-finish_token t (bare tag attrib) = Ensures-bind _ _ (Ensures-item "i" t.i) λ i at_i.
    Ensures-bind _ _ (Ensures-item "text" t.text)
      λ x at_x. Ensures-ok _ (rw at_x (spaced_text (get_or t.whitespace " " == " ") tag _ x))

-- `p` is `parent` with the text `s` at its end, and the tail of `parent`.
abbrev pub Extends : Element → String → Element → Type 0
Extends parent s p = (itertext p ≡ itertext parent ++ s) × (tail_of p ≡ tail_of parent)

pub tail_of-append : (p e : Element) → tail_of (append p e) ≡ tail_of p
unfolding append
tail_of-append (element tag attrib text tail children) e = refl

append-Extends :
    (parent e : Element) (s : String)
    → itertext e ++ tail_of e ≡ s
    → Extends parent s (append parent e)
append-Extends parent e s h =
    (itertext-append parent e ∙ ap (λ x. itertext parent ++ x) h, tail_of-append parent e)

itertext-add_word :
    (c : TeiConverter) (parent : Element) (t : Token) (space : Bool)
    → t.is_punct ≡ some false
    → t.is_space ≡ some space
    → Ensures (Extends parent (token_text t)) (add_word c parent t space)
unfolding add_word token_text
itertext-add_word c parent t true p q = Ensures-ok _ (rw (p, q) (simp append-nil), refl)
itertext-add_word c parent t false p q = Ensures-bind _ _ (word-IsBare c.schema t) λ w b.
    Ensures-bind _ _ (itertext-finish_token t b)
      λ e h. Ensures-ok _ (append-Extends parent e _ (rw (p, q) h))

itertext-add_either :
    (c : TeiConverter) (parent : Element) (t : Token) (punct : Bool)
    → t.is_punct ≡ some punct
    → Ensures (Extends parent (token_text t)) (add_either c parent t punct)
unfolding add_either token_text
itertext-add_either c parent t true p =
    Ensures-bind _ _ (itertext-finish_token t (bare _ _))
      λ e h. Ensures-ok _ (append-Extends parent e _ (rw p h))
itertext-add_either c parent t false p =
    Ensures-bind _ _ (Ensures-item "is_space" t.is_space)
      λ space q. itertext-add_word c parent t space p q

itertext-add_token_element :
    (c : TeiConverter) (parent : Element) (t : Token)
    → Ensures (Extends parent (token_text t)) (add_token_element c parent t)
unfolding add_token_element
itertext-add_token_element c parent t =
    Ensures-bind _ _ (Ensures-item "is_punct" t.is_punct) (itertext-add_either c parent t)

if_IsBare : (b : Bool) {e e' : Element} → IsBare e → IsBare e' → IsBare (if b then e else e')
if_IsBare true p q = p
if_IsBare false p q = q

option_IsBare :
    {A : Type 0} (o : Option A) (name : String) (value : A → String) {e : Element}
    → IsBare e
    → IsBare (elim o [ none ↦ e | some a ↦ set name (value a) e ])
option_IsBare none name value b = b
option_IsBare (some a) name value b = set-IsBare name (value a) b

create_entity_element-IsBare :
    (c : TeiConverter) (e : Entity) → Ensures IsBare (create_entity_element c e)
unfolding create_entity_element
create_entity_element-IsBare c e = Ensures-bind _ _ (Ensures-item "label" e.label) λ label _.
    let entity_type = upper label in
    let plain = bare _ _ in
    let typed = if_IsBare _ (set-IsBare "type" (lower entity_type) plain) plain in
    Ensures-ok _ (
      option_IsBare e.kb_id "ref" (λ k. k)
        (option_IsBare e.confidence "cert" confidence_to_certainty typed))

-- The text of an element with what is still to come, and its tail.
abbrev Balanced : Element → List Token → Element × List Token → Type 0
Balanced e ts r =
    (itertext r.0 ++ tokens_text r.1 ≡ itertext e ++ tokens_text ts) × (tail_of r.0 ≡ tail_of e)

Balanced-step :
    (e e' : Element) (t : Token) (ts : List Token) (r : Element × List Token)
    → Extends e (token_text t) e'
    → Balanced e' ts r
    → Balanced e (t ∷ ts) r
unfolding tokens_text
Balanced-step e e' t ts r (x, y) (p, q) =
    (p ∙ ap (λ s. s ++ tokens_text ts) x ∙ append_assoc _ _ _, q ∙ y)

-- The tokens that an entity collects and those that it leaves are the tokens that were there.
itertext-collect :
    (c : TeiConverter) (end : ℕ) (ts : List Token) (e : Element)
    → Ensures (Balanced e ts) (collect c end ts e)
unfolding collect
itertext-collect c end [] e = Ensures-ok _ (refl, refl)
itertext-collect c end (t ∷ ts) e = Ensures-bind _ _ (Ensures-item "i" t.i) λ i _.
    Ensures-if (ltb i end)
      (Ensures-bind _ _ (itertext-add_token_element c e t)
        λ e' x. Ensures-map (λ r. Balanced-step e e' t ts r x) (itertext-collect c end ts e'))
      (Ensures-ok _ (refl, refl))

Balanced-append :
    (p e : Element) (ts : List Token) (r : Element × List Token)
    → IsBare e
    → Balanced e ts r
    → Balanced p ts (append p r.0, r.1)
Balanced-append p e ts r b (x, y) =
    let (no_text, no_tail) = itertext_bare b in
    (
      simp (itertext-append, y, no_tail, append-nil, append_assoc, x, no_text, nil-append),
      tail_of-append p r.0,
    )

itertext-round_at :
    (c : TeiConverter) (p : Element) (t : Token) (ts : List Token) (o : Option Entity)
    → Ensures (Balanced p (t ∷ ts)) (round_at c p t ts o)
unfolding round_at tokens_text
itertext-round_at c p t ts none =
    Ensures-bind _ _ (itertext-add_token_element c p t)
      λ p' x. Ensures-ok _ (Balanced-step p p' t ts (p', ts) x (refl, refl))
itertext-round_at c p t ts (some entity) =
    Ensures-bind _ _ (create_entity_element-IsBare c entity) λ e b.
      Ensures-bind _ _ (Ensures-item "end" entity.end) λ end _.
        Ensures-bind _ _ (itertext-collect c end (t ∷ ts) e)
          λ r x. Ensures-ok _ (Balanced-append p e (t ∷ ts) r b x)

itertext-round :
    (c : TeiConverter) (m : EntityMap) (p : Element) (t : Token) (ts : List Token)
    → Ensures (Balanced p (t ∷ ts)) (round c m p t ts)
unfolding round
itertext-round c m p t ts =
    Ensures-bind _ _ (Ensures-item "i" t.i) λ i _. itertext-round_at c p t ts (starting m i)

itertext-loop :
    (fuel : ℕ) (c : TeiConverter) (m : EntityMap) (p : Element) (ts : List Token)
    → Ensures (Extends p (tokens_text ts)) (loop fuel c m p ts)
unfolding loop tokens_text
itertext-loop fuel c m p [] = Ensures-ok _ (sym (append-nil _), refl)
itertext-loop zero c m p (t ∷ ts) = record { at = λ a h. cc }
itertext-loop (suc fuel) c m p (t ∷ ts) =
    Ensures-bind _ _ (itertext-round c m p t ts)
      λ r x. Ensures-map (λ q y. (y.0 ∙ x.0, y.1 ∙ x.1)) (itertext-loop fuel c m r.0 r.1)

-- Where a sentence is processed, the text of its container is the text that was there, followed by
-- the texts and trailing spaces of all its tokens that are no mere whitespace, in their order,
-- whatever entities are in the map; its own tail stays.
pub itertext-process_sentence_tokens :
    (c : TeiConverter) (m : EntityMap) (container : Element) (s : Sentence) (ts : List Token)
    {container' : Element}
    → s.tokens ≡ list ts
    → process_sentence_tokens c m container s ≡ ok container'
    → Extends container (tokens_text ts) container'
unfolding process_sentence_tokens ◌>>=◌
itertext-process_sentence_tokens c m container s ts e h =
    (itertext-loop (length ts) c m container ts).at _ (rw e at h)
