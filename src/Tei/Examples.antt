-- ===== src/Tei/Examples.antt =====
-- Tests and instances for tei_converter.py: a sentence of three tokens, the first two a person.
use Prim.Native.String.{◌++◌}
use tei_nlp_converter.Base.{
  ◌>>=◌, has_key, put, ◌+◌, ℕ, String, Bool, true, false, none, some, List, [], ◌∷◌, ◌≡◌, ◌↔◌, refl,
  subst, ok, raise, diverges, value_error, All, ◌≤◌, arith, get, nat_key, Settles, Settles-ok,
  Settles-raise, map,
}
use tei_nlp_converter.Tei.Data.{list, Entry, dict, Token, Sentence, Entity, NlpResults, Schema}
use tei_nlp_converter.Tei.Xml.{Element, new, tei, itertext}
use tei_nlp_converter.Tei.Escape.{escape_xml}
use tei_nlp_converter.Tei.Escape.Reader.{read_xml, read_xml-escape_xml}
use tei_nlp_converter.Tei.Escape.Markup.{holds, less, holds-escape_xml}
use tei_nlp_converter.Tei.Validate.{validate_nlp_results, IsNlpResults, validate_nlp_results_iff}
use tei_nlp_converter.Tei.EntityMap.{EntityMap, build_entity_map, first_mark, get-build_entity_map}
use tei_nlp_converter.Tei.EntityMap.Forward.{IsForward, EndsLater}
use tei_nlp_converter.Tei.Inline.{
  TeiConverter, starting, loop, process_sentence_tokens, add_inline_annotations,
}
use tei_nlp_converter.Tei.Inline.Text.{tokens_text, Extends, itertext-process_sentence_tokens}
use tei_nlp_converter.Tei.Inline.Progress.{
  IsComplete, IsProper, process_sentence_tokens_returns, IsStuck, loop_diverges,
}
use tei_nlp_converter.Tei.Inline.Hangs.{Sticks, process_sentence_tokens_hangs_iff}
use tei_nlp_converter.Tei.Inline.Whole.{IsReady, sentences_text, add_inline_annotations_returns}
use tei_nlp_converter.Tei.Inline.Settles.{add_inline_annotations-Settles}
use tei_nlp_converter.Tei.Convert.{XmlLibrary, default_mappings, convert}
use tei_nlp_converter.Tei.Convert.Outcome.{IsSettling, convert_returns}

abbrev schema : Schema
schema = record {
  domain = some "general";
  annotation_strategy = some "inline";
  entity_mappings = none;
  title = none;
  author = none;
  description = none;
  schema_ref = none;
  classification = false;
  text_class = false;
  use_paragraphs = none;
  include_analysis = none;
  include_lemma = none;
  include_pos = none;
  include_morph = none;
  include_dep = none;
  include_dependencies = none;
}

abbrev converter : TeiConverter
converter = record { schema = schema; entity_mappings = default_mappings }

abbrev token : ℕ → String → Bool → String → Token
token i text punct space = record {
  i = some i;
  idx = some i;
  text = some text;
  lemma = some text;
  pos = some "X";
  dep = some "dep";
  morph = none;
  is_punct = some punct;
  is_space = some false;
  whitespace = some space;
}

abbrev tokens : List Token
tokens = token 0 "Ada" false " " ∷ token 1 "Lovelace" false "" ∷ token 2 "." true "" ∷ []

abbrev person : ℕ → ℕ → Entity
person start end = record {
  text = some "Ada Lovelace";
  label = some "person";
  start = some start;
  end = some end;
  start_char = none;
  end_char = none;
  confidence = none;
  kb_id = none;
}

abbrev sentence_of : List Token → Sentence
sentence_of ts = record { text = some "Ada Lovelace."; tokens = list ts }

abbrev results : List Entity → NlpResults
results es = record {
  sentences = list (dict (sentence_of tokens) ∷ []);
  entities = list (map dict es);
  dependencies = none;
  language = none;
  noun_chunks = none;
}

abbrev body : Element
body = new (tei "body")

-- The entity that ends behind its start, twice, and one that does not.
abbrev people : List Entity
people = person 0 2 ∷ person 1 3 ∷ []

ada : IsForward (person 0 2)
ada = record { label = λ h. cc; from = 0; to = 2; start = refl; end = refl; forward = omega arith }

nobody : IsForward (person 1 3)
nobody = record {
  label = λ h. cc;
  from = 1;
  to = 3;
  start = refl;
  end = refl;
  forward = omega arith;
}

token-IsComplete :
    (i : ℕ) (text : String) (punct : Bool) (space : String) → IsComplete (token i text punct space)
token-IsComplete i text punct space = record {
  i = λ h. cc;
  text = λ h. cc;
  is_punct = λ h. cc;
  is_space = λ h. cc;
  lemma = λ h. cc;
  pos = λ h. cc;
  dep = λ h. cc;
}

tokens-IsComplete : All IsComplete tokens
tokens-IsComplete =
    (token-IsComplete 0 _ _ _, (token-IsComplete 1 _ _ _, (token-IsComplete 2 _ _ _, tt)))

-- What the map of these entities is.
abbrev marks : EntityMap
marks =
    (0, record { entity = person 0 2; is_start = true })
    ∷ (1, record { entity = person 0 2; is_start = false })
    ∷ (2, record { entity = person 1 3; is_start = false })
    ∷ []

marks_example : build_entity_map (map dict people) ≡ ok marks
unfolding build_entity_map ◌>>=◌ has_key put
marks_example = refl

marks-IsProper : IsProper marks
unfolding starting get
marks-IsProper p e h = record {
  label = λ none_there. ground arith;
  end = λ none_there. ground arith;
  behind = λ n at_n. ground arith;
}

abbrev backward : EntityMap
backward = (1, record { entity = person 1 1; is_start = true }) ∷ []

stuck : IsStuck converter backward (token 1 "Lovelace" false "")
unfolding starting get
stuck = record {
  i = 1;
  end = 1;
  entity = person 1 1;
  at_i = refl;
  starts = refl;
  at_end = refl;
  label = λ h. cc;
  before = omega arith;
}

-- A library that gives an empty document, and cannot parse it.
abbrev library : XmlLibrary
library = record {
  tostring = λ e. ok "<TEI/>";
  pretty = λ s. raise (value_error "no element found");
}

library-IsSettling : IsSettling library
library-IsSettling = record { tostring = λ e. Settles-ok _; pretty = λ s. Settles-raise _ }

ends_later : (start end : ℕ) → start ≤ end → EndsLater (dict (person start (end + 1)))
ends_later start end h s t p q = ground (arith, h)

list_injective {ℓ} : {A : Type ℓ} {xs ys : List A} → list xs ≡ list ys → xs ≡ ys
list_injective h = cc

people_end_later :
    (es : List (Entry Entity)) → (results people).entities ≡ list es → All EndsLater es
people_end_later es h =
    subst (All EndsLater) (list_injective h)
      (ends_later 0 1 (omega arith), (ends_later 1 2 (omega arith), tt))

convert_returns_example :
    (document : String) × (convert library converter "2024-01-01T00:00:00" "2024-01-01T00:00:01"
        "Ada"
        (results people)
      ≡ ok document)
convert_returns_example =
    convert_returns library converter "2024-01-01T00:00:00" "2024-01-01T00:00:01" "Ada"
      (results people) library-IsSettling people_end_later

add_inline_annotations-Settles_example :
    Settles (add_inline_annotations converter body (results people))
add_inline_annotations-Settles_example =
    add_inline_annotations-Settles converter body (results people) people_end_later

ready : IsReady (sentence_of tokens)
ready = record { ts = tokens; tokens = refl; complete = tokens-IsComplete }

add_inline_annotations_returns_example :
    (body' : Element) × (add_inline_annotations converter body (results people) ≡ ok body')
    × (itertext body' ≡ itertext body ++ sentences_text (sentence_of tokens ∷ []))
add_inline_annotations_returns_example =
    add_inline_annotations_returns converter body (results people) people (sentence_of tokens ∷ [])
      refl refl (ada, (nobody, tt)) (ready, tt)

loop_diverges_example : loop 9 converter backward body (token 1 "Lovelace" false "" ∷ []) ≡ diverges
loop_diverges_example =
    loop_diverges 9 converter backward body (token 1 "Lovelace" false "") [] stuck

process_sentence_tokens_hangs_iff_example :
    (process_sentence_tokens converter backward body (sentence_of tokens) ≡ diverges)
    ↔ Sticks converter backward body tokens
process_sentence_tokens_hangs_iff_example =
    process_sentence_tokens_hangs_iff converter backward body (sentence_of tokens) tokens refl

process_sentence_tokens_returns_example :
    (container : Element) × (process_sentence_tokens converter marks body (sentence_of tokens)
      ≡ ok container)
process_sentence_tokens_returns_example =
    process_sentence_tokens_returns converter marks body (sentence_of tokens) tokens refl
      marks-IsProper tokens-IsComplete

itertext-process_sentence_tokens_example :
    Extends body (tokens_text tokens) process_sentence_tokens_returns_example.0
itertext-process_sentence_tokens_example =
    itertext-process_sentence_tokens converter marks body (sentence_of tokens) tokens refl
      process_sentence_tokens_returns_example.1

get-build_entity_map_example : get 1 marks ≡ first_mark 1 (map dict people)
get-build_entity_map_example = get-build_entity_map (map dict people) 1 marks_example

escape_xml_example : escape_xml "a < 'b' & c" ≡ "a &lt; &apos;b&apos; &amp; c"
unfolding escape_xml
escape_xml_example = refl

read_xml-escape_xml_example : read_xml none (escape_xml "a < 'b' &amp; c") ≡ "a < 'b' &amp; c"
read_xml-escape_xml_example = read_xml-escape_xml "a < 'b' &amp; c"

holds-escape_xml_example : holds b'<' (escape_xml "a < 'b' & c") ≡ false
holds-escape_xml_example = holds-escape_xml b'<' "a < 'b' & c" (less refl)

validate_nlp_results_iff_example :
    (validate_nlp_results (results people) ≡ true) ↔ IsNlpResults (results people)
validate_nlp_results_iff_example = validate_nlp_results_iff (results people)
