-- ===== src/Tei/Validate.antt =====
-- `_validate_schema` and `_validate_nlp_results` of tei_converter.py.
use Prim.Native.String.{◌++◌}
use tei_nlp_converter.Base.{
  String, Bool, true, false, ◌||◌, Option, none, some, List, [], ◌∷◌, Result, ok, raise,
  value_error, ◌>>=◌, ◌≡◌, ◌≢◌, refl, ◌↔◌, ◌==◌, string_key, if◌then◌else◌, arith, All,
}
use tei_nlp_converter.Tei.Data.{
  Field, missing, not_list, list, Entry, not_dict, dict, Token, Sentence, Entity, NlpResults,
  Schema,
}

abbrev required : String → Option String → Result String
required key none = raise (value_error ("Schema missing required field: " ++ key))
required key (some value) = ok value

-- The required fields in their order, then the strategy.
unfoldable pub validate_schema : Schema → Result (Unit {0})
validate_schema s = do
  domain ← required "domain" s.domain
  strategy ← required "annotation_strategy" s.annotation_strategy
  if strategy == "inline" || strategy == "standoff" || strategy == "mixed"
      then ok tt
      else raise (value_error ("Invalid annotation_strategy: " ++ strategy))

abbrev is_there {ℓ} : {A : Type ℓ} → Option A → Bool
is_there none = false
is_there (some _) = true

valid_tokens : Field Token → Bool
valid_tokens missing = true
valid_tokens not_list = false
valid_tokens (list _) = true

valid_sentence : Entry Sentence → Bool
unfolding valid_tokens
valid_sentence not_dict = false
valid_sentence (dict s) = if is_there s.text then valid_tokens s.tokens else false

valid_sentences : List (Entry Sentence) → Bool
unfolding valid_sentence
valid_sentences [] = true
valid_sentences (s ∷ ss) = let rest = valid_sentences ss in if valid_sentence s then rest else false

valid_entity : Entry Entity → Bool
valid_entity not_dict = false
valid_entity (dict e) = if is_there e.text then is_there e.label else false

valid_entities : List (Entry Entity) → Bool
unfolding valid_entity
valid_entities [] = true
valid_entities (e ∷ es) = let rest = valid_entities es in if valid_entity e then rest else false

all_sentences : Field (Entry Sentence) → Bool
unfolding valid_sentences
all_sentences (list ss) = valid_sentences ss
all_sentences _ = false

all_entities : Field (Entry Entity) → Bool
unfolding valid_entities
all_entities (list es) = valid_entities es
all_entities _ = false

-- A missing key, of `sentences` or `entities`, is found first; the outcome is the same.
unfoldable pub validate_nlp_results : NlpResults → Bool
unfolding all_sentences all_entities
validate_nlp_results r = if all_sentences r.sentences then all_entities r.entities else false

-- What a valid sentence and a valid entity are.
pub data IsSentence : Entry Sentence → Type 0 where
  sentence : (s : Sentence) → s.text ≢ none → s.tokens ≢ not_list → IsSentence (dict s)

pub data IsEntity : Entry Entity → Type 0 where
  entity : (e : Entity) → e.text ≢ none → e.label ≢ none → IsEntity (dict e)

pub record IsNlpResults (r : NlpResults) : Type 0 where
  pub ss : List (Entry Sentence)
  pub es : List (Entry Entity)
  pub sentences : r.sentences ≡ list ss
  pub entities : r.entities ≡ list es
  pub all_ss : All IsSentence ss
  pub all_es : All IsEntity es

IsSentence-of : (s : Entry Sentence) → valid_sentence s ≡ true → IsSentence s
unfolding valid_sentence
IsSentence-of not_dict h = cc
IsSentence-of (dict s) h = sentence s (ground arith) (ground arith)

IsEntity-of : (e : Entry Entity) → valid_entity e ≡ true → IsEntity e
unfolding valid_entity
IsEntity-of not_dict h = cc
IsEntity-of (dict e) h = entity e (ground arith) (ground arith)

valid-IsSentence : {s : Entry Sentence} → IsSentence s → valid_sentence s ≡ true
unfolding valid_sentence
valid-IsSentence (sentence s t k) = ground arith

valid-IsEntity : {e : Entry Entity} → IsEntity e → valid_entity e ≡ true
unfolding valid_entity
valid-IsEntity (entity e t l) = ground arith

sentences_sound : (ss : List (Entry Sentence)) → valid_sentences ss ≡ true → All IsSentence ss
unfolding valid_sentences
sentences_sound [] h = tt
sentences_sound (s ∷ ss) h = (IsSentence-of s (ground arith), sentences_sound ss (ground arith))

entities_sound : (es : List (Entry Entity)) → valid_entities es ≡ true → All IsEntity es
unfolding valid_entities
entities_sound [] h = tt
entities_sound (e ∷ es) h = (IsEntity-of e (ground arith), entities_sound es (ground arith))

sentences_complete : (ss : List (Entry Sentence)) → All IsSentence ss → valid_sentences ss ≡ true
unfolding valid_sentences
sentences_complete [] h = refl
sentences_complete (s ∷ ss) h = rw (valid-IsSentence h.0, sentences_complete ss h.1)

entities_complete : (es : List (Entry Entity)) → All IsEntity es → valid_entities es ≡ true
unfolding valid_entities
entities_complete [] h = refl
entities_complete (e ∷ es) h = rw (valid-IsEntity h.0, entities_complete es h.1)

sound_lists :
    (r : NlpResults) (f : Field (Entry Sentence)) (g : Field (Entry Entity))
    → r.sentences ≡ f
    → r.entities ≡ g
    → all_sentences f ≡ true
    → all_entities g ≡ true
    → IsNlpResults r
unfolding all_sentences all_entities
sound_lists r (list ss) (list es) p q hs he = record {
  ss = ss;
  es = es;
  sentences = p;
  entities = q;
  all_ss = sentences_sound ss hs;
  all_es = entities_sound es he;
}
sound_lists r _ _ p q hs he = cc

-- The validation accepts exactly the results whose sentences and entities are lists of dictionaries
-- with a text (a sentence: and no `tokens` that are no list; an entity: and a label).
pub validate_nlp_results_iff : (r : NlpResults) → (validate_nlp_results r ≡ true) ↔ IsNlpResults r
unfolding validate_nlp_results
validate_nlp_results_iff r = (
  λ h. sound_lists r r.sentences r.entities refl refl (ground arith) (ground arith),
  λ v.
      rw (
        v.sentences,
        v.entities,
        sentences_complete v.ss v.all_ss,
        entities_complete v.es v.all_es,
      ),
)
