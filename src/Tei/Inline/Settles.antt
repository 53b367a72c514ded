-- ===== src/Tei/Inline/Settles.antt =====
-- What of the inline annotation comes back: all of it, but for a loop that is stuck.
use tei_nlp_converter.Base.{
  ℕ, zero, suc, ◌+◌, ◌≤◌, String, Bool, true, false, Option, none, some, List, [], ◌∷◌, length, ok,
  ◌≡◌, inl, inr, arith, ap, get, nat_key, All, Option-cases, Bool-cases, ok-injective, Settles,
  Settles-ok, Settles-raise, Settles-bind, settles_rules,
}
use tei_nlp_converter.Tei.Data.{
  Field, missing, not_list, list, Entry, Settles-dict_of, Token, Sentence, Entity, NlpResults,
  Schema,
}
use tei_nlp_converter.Tei.Xml.{Element}
use tei_nlp_converter.Tei.EntityMap.{EntityMap, build_entity_map}
use tei_nlp_converter.Tei.EntityMap.Forward.{
  EndsLater, build_entity_map_later, build_entity_map-Settles,
}
use tei_nlp_converter.Tei.Inline.{
  TeiConverter, field, set_if, finish_token, word, add_word, add_either, add_token_element,
  create_entity_element, collect, round_at, round, loop, process_sentence_tokens, add_sentences,
  starting, add_inline_annotations,
}
use tei_nlp_converter.Tei.Inline.Progress.{IsStuck}
use tei_nlp_converter.Tei.Inline.Fuel.{round-Advances}

pub Settles-field {ℓ} : {A : Type ℓ} (key : String) (f : Field A) → Settles (field key f)
Settles-field key missing = Settles-raise _
Settles-field key not_list = Settles-raise _
Settles-field key (list xs) = Settles-ok xs

field_ok {ℓ} :
    {A : Type ℓ} (key : String) (f : Field A) {xs : List A} → field key f ≡ ok xs → f ≡ list xs
field_ok key missing h = absurd (cc h)
field_ok key not_list h = absurd (cc h)
field_ok key (list ys) h = ap list (ok-injective h)

Settles-set_if :
    (flag : Bool) (name key : String) (value : Option String) (e : Element)
    → Settles (set_if flag name key value e)
Settles-set_if true name key value e = search settles_rules
Settles-set_if false name key value e = search settles_rules

word-Settles : (s : Schema) (t : Token) → Settles (word s t)
unfolding word
word-Settles s t = search (settles_rules, Settles-set_if)

finish_token-Settles : (t : Token) (e : Element) → Settles (finish_token t e)
unfolding finish_token
finish_token-Settles t e = search settles_rules

add_word-Settles :
    (c : TeiConverter) (p : Element) (t : Token) (b : Bool) → Settles (add_word c p t b)
unfolding add_word
add_word-Settles c p t true = search settles_rules
add_word-Settles c p t false = search (settles_rules, word-Settles, finish_token-Settles)

add_either-Settles :
    (c : TeiConverter) (p : Element) (t : Token) (b : Bool) → Settles (add_either c p t b)
unfolding add_either
add_either-Settles c p t true = search (settles_rules, finish_token-Settles)
add_either-Settles c p t false = search (settles_rules, add_word-Settles)

add_token_element-Settles :
    (c : TeiConverter) (p : Element) (t : Token) → Settles (add_token_element c p t)
unfolding add_token_element
add_token_element-Settles c p t = search (settles_rules, add_either-Settles)

create_entity_element-Settles :
    (c : TeiConverter) (e : Entity) → Settles (create_entity_element c e)
unfolding create_entity_element
create_entity_element-Settles c e = search settles_rules

collect-Settles :
    (c : TeiConverter) (end : ℕ) (ts : List Token) (e : Element) → Settles (collect c end ts e)
unfolding collect
collect-Settles c end [] e = search settles_rules
collect-Settles c end (t ∷ ts) e =
    search (settles_rules, add_token_element-Settles, collect-Settles c end ts)

round_at-Settles :
    (c : TeiConverter) (p : Element) (t : Token) (ts : List Token) (o : Option Entity)
    → Settles (round_at c p t ts o)
unfolding round_at
round_at-Settles c p t ts none = search (settles_rules, add_token_element-Settles)
round_at-Settles c p t ts (some e) =
    search (settles_rules, create_entity_element-Settles, collect-Settles)

pub round-Settles :
    (c : TeiConverter) (m : EntityMap) (p : Element) (t : Token) (ts : List Token)
    → Settles (round c m p t ts)
unfolding round
round-Settles c m p t ts = search (settles_rules, round_at-Settles)

module _ (c : TeiConverter) (m : EntityMap) (free : (t : Token) → ¬ IsStuck c m t) where
  loop-Settles :
      (fuel : ℕ) (p : Element) (ts : List Token) → length ts ≤ fuel → Settles (loop fuel c m p ts)
  unfolding loop
  loop-Settles fuel p [] f = Settles-ok p
  loop-Settles zero p (t ∷ ts) f = absurd (omega arith)
  loop-Settles (suc fuel) p (t ∷ ts) f = Settles-bind _ _ (round-Settles c m p t ts) λ r is_ok.
      elim ((round-Advances c m p t ts).at r is_ok) [
        | inl less ↦ loop-Settles fuel r.0 r.1 (omega arith)
        | inr (stuck, _) ↦ absurd (free t stuck)
      ]

  process_sentence_tokens-Settles :
      (p : Element) (s : Sentence) → Settles (process_sentence_tokens c m p s)
  unfolding process_sentence_tokens
  process_sentence_tokens-Settles p s =
      Settles-bind _ _ (Settles-field "tokens" s.tokens)
        λ ts _. loop-Settles (length ts) p ts (omega arith)

  add_sentences-Settles :
      (n : ℕ) (ss : List (Entry Sentence)) (div : Element) → Settles (add_sentences c m n ss div)
  unfolding add_sentences
  add_sentences-Settles n [] div = Settles-ok div
  add_sentences-Settles n (s ∷ ss) div = Settles-bind _ _ (Settles-dict_of s) λ s' _.
      Settles-bind _ _ (process_sentence_tokens-Settles _ s')
        λ p _. add_sentences-Settles (n + 1) ss _

-- The entries of the map come back, whatever the entities are.
not-IsStuck :
    (c : TeiConverter) (es : List (Entry Entity)) (m : EntityMap)
    → All EndsLater es
    → build_entity_map es ≡ ok m
    → (t : Token) → ¬ IsStuck c m t
unfolding starting
not-IsStuck c es m later built t s = elim (Option-cases (get s.i m)) [
  | inl nothing ↦ absurd (ground (arith, s.starts))
  | inr (k, found) ↦ elim (Bool-cases k.is_start) [
    | inl start ↦
        let same : k.entity ≡ s.entity = ground (arith, s.starts) in
        let behind =
          build_entity_map_later es s.i s.end k later built found start (rw same s.at_end) in
        absurd (omega (arith, s.before, behind))
    | inr inside ↦ absurd (ground (arith, s.starts))
  ]
]

-- If every entity with a start and an end ends behind its start, the inline annotation comes back,
-- with the body or with an exception.
pub add_inline_annotations-Settles :
    (c : TeiConverter) (body : Element) (r : NlpResults)
    → ((es : List (Entry Entity)) → r.entities ≡ list es → All EndsLater es)
    → Settles (add_inline_annotations c body r)
unfolding add_inline_annotations
add_inline_annotations-Settles c body r later =
    Settles-bind _ _ (Settles-field "entities" r.entities) λ es at_es.
      Settles-bind _ _ (build_entity_map-Settles es) λ m built.
        Settles-bind _ _ (Settles-field "sentences" r.sentences) λ ss _.
          Settles-bind _ _
            (add_sentences-Settles c m
              (not-IsStuck c es m (later es (field_ok "entities" r.entities at_es)) built) 0 ss _)
            λ div _. Settles-ok _
