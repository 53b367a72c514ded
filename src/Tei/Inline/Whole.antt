-- ===== src/Tei/Inline/Whole.antt =====
-- The inline annotation of a whole document.
use Prim.Native.String.{◌++◌}
use text.Mathlib.TextLemmas.{append-nil, append_assoc, nil-append}
use tei_nlp_converter.Base.{
  ℕ, ◌+◌, String, List, [], ◌∷◌, All, map, ok, ◌≡◌, refl, sym, ◌∙◌, arith, get, nat_key,
  Option-cases, Bool-cases, inl, inr, Returns, Returns-bind, Returns-ok, Returns-map,
}
use tei_nlp_converter.Tei.Data.{list, dict, Sentence, Entity, Token, NlpResults}
use tei_nlp_converter.Tei.Xml.{Element, append, itertext, itertext-append, tail_of}
use tei_nlp_converter.Tei.EntityMap.{EntityMap}
use tei_nlp_converter.Tei.EntityMap.Forward.{IsForward, StartsForward, build_entity_map-Returns}
use tei_nlp_converter.Tei.Inline.{
  TeiConverter, starting, process_sentence_tokens, new_container, new_div, add_sentences,
  add_inline_annotations, Returns-field,
}
use tei_nlp_converter.Tei.Inline.Text.{
  tokens_text, Extends, tail_of-append, itertext-process_sentence_tokens,
}
use tei_nlp_converter.Tei.Inline.Progress.{IsComplete, IsProper, process_sentence_tokens_returns}

-- A sentence with tokens that have all keys.
pub record IsReady (s : Sentence) : Type 0 where
  pub ts : List Token
  pub tokens : s.tokens ≡ list ts
  pub complete : All IsComplete ts

-- The text of the tokens of a sentence, without those that are whitespace only (`token_text`).
pub sentence_text : Sentence → String
sentence_text s = elim s.tokens [ list ts ↦ tokens_text ts | _ ↦ "" ]

pub sentences_text : List Sentence → String
sentences_text [] = ""
sentences_text (s ∷ ss) = sentence_text s ++ sentences_text ss

IsProper-built : (m : EntityMap) → StartsForward m → IsProper m
unfolding starting
IsProper-built m h p e starts = elim (Option-cases (get p m)) [
  | inl nothing ↦ absurd (ground arith)
  | inr (k, found) ↦ elim (Bool-cases k.is_start) [
    | inl start ↦
        let ends = h p k found start in
        let same : k.entity ≡ e = ground arith in
        rw (← same) (record {
          label = ends.label;
          end = λ none_there. cc (none_there, ends.end);
          behind = λ n at_n. ground (arith, ends.behind, ends.end);
        })
    | inr inside ↦ absurd (ground arith)
  ]
]

process_sentence-Returns :
    (c : TeiConverter) (m : EntityMap) (p : Element) (s : Sentence)
    → IsProper m
    → IsReady s
    → Returns (Extends p (sentence_text s)) (process_sentence_tokens c m p s)
unfolding sentence_text
process_sentence-Returns c m p s proper r =
    let (p', done) = process_sentence_tokens_returns c m p s r.ts r.tokens proper r.complete in
    record {
      value = p';
      is_ok = done;
      good = rw r.tokens (itertext-process_sentence_tokens c m p s r.ts r.tokens done);
    }

-- A container that had no text, filled and appended.
append_filled :
    (div div' e p : Element) (s rest : String)
    → (itertext e ≡ "") × (tail_of e ≡ "")
    → Extends e s p
    → Extends (append div p) rest div'
    → Extends div (s ++ rest) div'
append_filled div div' e p s rest (no_text, no_tail) (x, y) (z, w) = (
  z ∙ simp (itertext-append, x, y, no_text, no_tail, append_assoc, nil-append),
  w ∙ tail_of-append div p,
)

add_sentences-Returns :
    (c : TeiConverter) (m : EntityMap) (n : ℕ) (ss : List Sentence) (div : Element)
    → IsProper m
    → All IsReady ss
    → Returns (Extends div (sentences_text ss)) (add_sentences c m n (map dict ss) div)
unfolding add_sentences new_container sentences_text itertext
add_sentences-Returns c m n [] div proper h = Returns-ok _ (sym (append-nil _), refl)
add_sentences-Returns c m n (s ∷ ss) div proper h =
    Returns-bind _ _ (Returns-ok {P = λ x. x ≡ s} s refl) λ x same.
      Returns-bind _ _ (process_sentence-Returns c m _ x proper (rw same h.0)) λ p y.
        Returns-map
          (λ div' z.
            rw (← same) (append_filled div div' (new_container c n) p _ _ (refl, refl) y z))
          (add_sentences-Returns c m (n + 1) ss (append div p) proper h.1)

-- The inline annotation of a document with complete sentences and forward entities returns, and the text
-- of what it appends to the body is that of the tokens of all sentences in their order, a space after each
-- token whose whitespace is one. Tokens with `is_space` that are no punctuation are left out, with their
-- text.
pub add_inline_annotations_returns :
    (c : TeiConverter) (body : Element) (r : NlpResults) (es : List Entity) (ss : List Sentence)
    → r.entities ≡ list (map dict es)
    → r.sentences ≡ list (map dict ss)
    → All IsForward es
    → All IsReady ss
    → (body' : Element) × (add_inline_annotations c body r ≡ ok body')
      × (itertext body' ≡ itertext body ++ sentences_text ss)
unfolding add_inline_annotations itertext
add_inline_annotations_returns c body r es ss at_es at_ss forward ready =
    let done = annotated in (done.value, done.is_ok, done.good)
  where
    Holds : Element → Type 0
    Holds = Extends new_div (sentences_text ss)

    annotated :
        Returns
          (λ body'. itertext body' ≡ itertext body ++ sentences_text ss)
          (add_inline_annotations c body r)
    annotated = Returns-bind _ _ (Returns-field "entities" r.entities at_es) λ es' same_es.
        Returns-bind {Q = StartsForward} _ _ (rw same_es (build_entity_map-Returns es forward))
          λ m ends. Returns-bind _ _ (Returns-field "sentences" r.sentences at_ss) λ ss' same_ss.
            Returns-bind {Q = Holds} _ _
              (rw same_ss (add_sentences-Returns c m 0 ss new_div (IsProper-built m ends) ready))
              λ div' (x, y).
                Returns-ok _ (itertext-append body div' ∙ simp (x, y, nil-append, append-nil))
