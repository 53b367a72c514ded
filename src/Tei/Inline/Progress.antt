-- ===== src/Tei/Inline/Progress.antt =====
-- When the loop over the tokens of a sentence ends, and when it does not.
use tei_nlp_converter.Base.{
  ℕ, zero, suc, ◌≤◌, ◌<◌, String, Bool, true, false, Option, none, some, List, [], ◌∷◌, length, All,
  ltb, ok, diverges, ◌>>=◌, ◌≡◌, ◌≢◌, refl, arith, nat_key, Returns, Returns-bind, Returns-ok,
  Returns-item, Returns-if, Returns-map,
}
use tei_nlp_converter.Tei.Data.{list, Token, Sentence, Entity, Schema}
use tei_nlp_converter.Tei.Xml.{Element, append, tei, new}
use tei_nlp_converter.Tei.EntityMap.{EntityMap}
use tei_nlp_converter.Tei.Inline.{
  TeiConverter, set_if, finish_token, word, add_word, add_either, add_token_element,
  create_entity_element, collect, starting, round_at, round, loop, process_sentence_tokens,
}

-- A token with every key that the converter may read.
pub record IsComplete (t : Token) : Type 0 where
  pub i : t.i ≢ none
  pub text : t.text ≢ none
  pub is_punct : t.is_punct ≢ none
  pub is_space : t.is_space ≢ none
  pub lemma : t.lemma ≢ none
  pub pos : t.pos ≢ none
  pub dep : t.dep ≢ none

-- An entity that an entity map starts at `p`: it has a label and ends behind `p`.
pub record IsProperAt (p : ℕ) (e : Entity) : Type 0 where
  pub label : e.label ≢ none
  pub end : e.end ≢ none
  pub behind : (n : ℕ) → e.end ≡ some n → p < n

abbrev pub IsProper : EntityMap → Type 0
IsProper m = (p : ℕ) (e : Entity) → starting m p ≡ some e → IsProperAt p e

-- Nothing is said of the value.
abbrev IsThere {ℓ} : {A : Type ℓ} → A → Type 0
IsThere a = Unit

set_if-Returns :
    (flag : Bool) (name key : String) (value : Option String) (e : Element)
    → value ≢ none
    → Returns IsThere (set_if flag name key value e)
unfolding ◌>>=◌
set_if-Returns true name key none e h = absurd (h refl)
set_if-Returns true name key (some v) e h = Returns-ok _ tt
set_if-Returns false name key value e h = Returns-ok _ tt

word-Returns : (s : Schema) (t : Token) → IsComplete t → Returns IsThere (word s t)
unfolding word
word-Returns s t h = Returns-bind _ _ (set_if-Returns _ _ _ t.lemma _ h.lemma) λ e _.
    Returns-bind _ _ (set_if-Returns _ _ _ t.pos _ h.pos) λ e' _. set_if-Returns _ _ _ t.dep _ h.dep

finish_token-Returns : (t : Token) (e : Element) → IsComplete t → Returns IsThere (finish_token t e)
unfolding finish_token
finish_token-Returns t e h =
    Returns-bind _ _ (Returns-item "i" t.i h.i)
      λ i _. Returns-bind _ _ (Returns-item "text" t.text h.text) λ x _. Returns-ok _ tt

add_either-Returns :
    (c : TeiConverter) (p : Element) (t : Token) (punct : Bool)
    → IsComplete t
    → Returns IsThere (add_either c p t punct)
unfolding add_either
add_either-Returns c p t true h =
    Returns-bind _ _ (finish_token-Returns t (new (tei "pc")) h) λ e _. Returns-ok _ tt
add_either-Returns c p t false h =
    Returns-bind _ _ (Returns-item "is_space" t.is_space h.is_space) λ space _. by_space space
  where
    by_space : (space : Bool) → Returns IsThere (add_word c p t space)
    by_space true = Returns-ok _ tt
    by_space false =
        Returns-bind _ _ (word-Returns c.schema t h)
          λ w _. Returns-bind _ _ (finish_token-Returns t w h) λ e _. Returns-ok _ tt

add_token_element-Returns :
    (c : TeiConverter) (p : Element) (t : Token)
    → IsComplete t
    → Returns IsThere (add_token_element c p t)
unfolding add_token_element
add_token_element-Returns c p t h =
    Returns-bind _ _ (Returns-item "is_punct" t.is_punct h.is_punct)
      λ punct _. add_either-Returns c p t punct h

-- What is left of the tokens: not more than there were.
abbrev Leaves : ℕ → Element × List Token → Type 0
Leaves n r = (length r.1 ≤ n) × All IsComplete r.1

collect-Returns :
    (c : TeiConverter) (end : ℕ) (ts : List Token) (e : Element)
    → All IsComplete ts
    → Returns (Leaves (length ts)) (collect c end ts e)
unfolding collect
collect-Returns c end [] e h = Returns-ok _ (omega arith, tt)
collect-Returns c end (t ∷ ts) e h = Returns-bind _ _ (Returns-item "i" t.i h.0.i) λ i _.
    Returns-if (ltb i end)
      (Returns-bind _ _ (add_token_element-Returns c e t h.0)
        λ e' _. Returns-map (λ r x. (omega arith, x.1)) (collect-Returns c end ts e' h.1))
      (Returns-ok _ (omega arith, h))

-- An entity that ends behind its first token takes that token.
collect_takes :
    (c : TeiConverter) (end i : ℕ) (t : Token) (ts : List Token) (e : Element)
    → All IsComplete (t ∷ ts)
    → t.i ≡ some i
    → i < end
    → Returns (Leaves (length ts)) (collect c end (t ∷ ts) e)
unfolding collect
collect_takes c end i t ts e h at_i behind = Returns-bind _ _ (Returns-item "i" t.i h.0.i) λ j at_j.
    let here : ltb j end ≡ true = ground arith in
    rw here (
      Returns-bind _ _ (add_token_element-Returns c e t h.0)
        λ e' _. collect-Returns c end ts e' h.1)

create_entity_element-Returns :
    (c : TeiConverter) (e : Entity) → e.label ≢ none → Returns IsThere (create_entity_element c e)
unfolding create_entity_element
create_entity_element-Returns c e h =
    Returns-bind _ _ (Returns-item "label" e.label h) λ label _. Returns-ok _ tt

round_at-Returns :
    (c : TeiConverter) (p : Element) (i : ℕ) (t : Token) (ts : List Token) (o : Option Entity)
    → All IsComplete (t ∷ ts)
    → t.i ≡ some i
    → ((e : Entity) → o ≡ some e → IsProperAt i e)
    → Returns (Leaves (length ts)) (round_at c p t ts o)
unfolding round_at
round_at-Returns c p i t ts none h at_i proper =
    Returns-bind _ _ (add_token_element-Returns c p t h.0) λ p' _. Returns-ok _ (omega arith, h.1)
round_at-Returns c p i t ts (some e) h at_i proper =
    let fits = proper e refl in
    Returns-bind _ _ (create_entity_element-Returns c e fits.label) λ elem _.
      Returns-bind _ _ (Returns-item "end" e.end fits.end) λ end at_end.
        Returns-bind _ _ (collect_takes c end i t ts elem h at_i (fits.behind end at_end))
          λ r x. Returns-ok _ x

-- A round takes at least one token.
round-Returns :
    (c : TeiConverter) (m : EntityMap) (p : Element) (t : Token) (ts : List Token)
    → IsProper m
    → All IsComplete (t ∷ ts)
    → Returns (Leaves (length ts)) (round c m p t ts)
unfolding round
round-Returns c m p t ts proper h =
    Returns-bind _ _ (Returns-item "i" t.i h.0.i)
      λ i at_i. round_at-Returns c p i t ts (starting m i) h at_i (proper i)

loop-Returns :
    (fuel : ℕ) (c : TeiConverter) (m : EntityMap) (p : Element) (ts : List Token)
    → IsProper m
    → All IsComplete ts
    → length ts ≤ fuel
    → Returns IsThere (loop fuel c m p ts)
unfolding loop
loop-Returns fuel c m p [] proper h f = Returns-ok _ tt
loop-Returns zero c m p (t ∷ ts) proper h f = absurd (omega arith)
loop-Returns (suc fuel) c m p (t ∷ ts) proper h f =
    Returns-bind _ _ (round-Returns c m p t ts proper h)
      λ r x. loop-Returns fuel c m r.0 r.1 proper x.1 (omega arith)

-- If every entity that the map starts has a label and ends behind its start, and the tokens have all
-- keys that are read, the loop over the tokens of a sentence ends and raises nothing.
pub process_sentence_tokens_returns :
    (c : TeiConverter) (m : EntityMap) (container : Element) (s : Sentence) (ts : List Token)
    → s.tokens ≡ list ts
    → IsProper m
    → All IsComplete ts
    → (container' : Element) × (process_sentence_tokens c m container s ≡ ok container')
unfolding process_sentence_tokens ◌>>=◌
process_sentence_tokens_returns c m container s ts e proper h =
    let ended = loop-Returns (length ts) c m container ts proper h (omega arith) in
    (ended.value, rw e ended.is_ok)

-- A token at which the outer loop makes no progress: an entity starts there that does not end behind
-- it.
pub record IsStuck (c : TeiConverter) (m : EntityMap) (t : Token) : Type 0 where
  pub i : ℕ
  pub end : ℕ
  pub entity : Entity
  pub at_i : t.i ≡ some i
  pub starts : starting m i ≡ some entity
  pub at_end : entity.end ≡ some end
  pub label : entity.label ≢ none
  pub before : end ≤ i

round_stuck :
    (c : TeiConverter) (m : EntityMap) (p : Element) (t : Token) (ts : List Token)
    → IsStuck c m t
    → (p' : Element) × (round c m p t ts ≡ ok (p', t ∷ ts))
unfolding round round_at collect ◌>>=◌
round_stuck c m p t ts s =
    let made = create_entity_element-Returns c s.entity s.label in
    let stays : ltb s.i s.end ≡ false = ground (arith, s.before) in
    (append p made.value, rw (s.at_i, s.starts, round_at, made.is_ok, s.at_end, s.at_i, stays) refl)

-- However much fuel it has, the loop does not return where its first token starts an entity, with a
-- label, that ends at this token or before it.
pub loop_diverges :
    (fuel : ℕ) (c : TeiConverter) (m : EntityMap) (p : Element) (t : Token) (ts : List Token)
    → IsStuck c m t
    → loop fuel c m p (t ∷ ts) ≡ diverges
unfolding loop ◌>>=◌
loop_diverges zero c m p t ts s = refl
loop_diverges (suc fuel) c m p t ts s =
    let (p', same) = round_stuck c m p t ts s in rw same (loop_diverges fuel c m p' t ts s)
