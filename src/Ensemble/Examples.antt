-- ===== src/Ensemble/Examples.antt =====
-- Tests and instances for domain_nlp/pipeline/ensemble.py: two models, of which the second is surer.
use tei_nlp_converter.Base.{
  ℕ, ◌≤◌, String, List, [], ◌∷◌, ◌≡◌, refl, arith, All, get, keep, sort, insert,
}
use tei_nlp_converter.Ensemble.{Entity, SpanKey, span_key, all_entities, union_merge, group_by_span}
use tei_nlp_converter.Ensemble.Union.{IsApart, union_merge-IsApart}
use tei_nlp_converter.Ensemble.Groups.{has_span, get-group_by_span}
use tei_nlp_converter.Base.{
  ◌+◌, ◌*◌, ◌/◌, min, if◌then◌else◌, length, map, some, Returns, IsSorted, ok, ◌>>=◌, append_to,
  put,
}
use tei_nlp_converter.Ensemble.{position_le, span_of}
use tei_nlp_converter.Ensemble.Votes.{
  count_types, first_of, sum, Arithmetic, of_model, Origin, majority_vote,
}
use tei_nlp_converter.Ensemble.Votes.Counts.{votes, IsWinner}
use tei_nlp_converter.Ensemble.Votes.Majority.{majority_vote_elects}
use tei_nlp_converter.Ensemble.Merge.{
  has, spans_of, common, first_at, agreed, firsts, intersection_merge,
}
use tei_nlp_converter.Ensemble.Merge.Spans.{all_find}
use tei_nlp_converter.Ensemble.Merge.Common.{intersection_merge_common}

abbrev found : String → ℕ → ℕ → ℕ → Entity ℕ
found text start end confidence = record {
  text = text;
  type = "DRUG";
  start = start;
  end = end;
  confidence = confidence;
  rest = 0;
}

abbrev models : List (List (Entity ℕ))
models =
    (found "ibuprofen" 20 29 900 ∷ found "acid" 7 11 600 ∷ [])
    ∷ (found "salicylic acid" 0 11 800 ∷ found "acid" 7 11 700 ∷ [])
    ∷ []

union_merge_run :
    union_merge models ≡ found "salicylic acid" 0 11 800 ∷ found "ibuprofen" 20 29 900 ∷ []
unfolding union_merge sort insert
union_merge_run = refl

union_merge-IsApart_example :
    IsApart (union_merge models) × All (λ e. 600 ≤ e.confidence) (union_merge models)
union_merge-IsApart_example =
    union_merge-IsApart (λ e. 600 ≤ e.confidence) models
      ((omega arith, (omega arith, tt)), ((omega arith, (omega arith, tt)), tt))
      ((omega arith, (omega arith, tt)), ((omega arith, (omega arith, tt)), tt))

abbrev acid_span : SpanKey
acid_span = record { start = 7; end = 11 }

get-group_by_span_example :
    get acid_span (group_by_span models) ≡ some (found "acid" 7 11 600 ∷ found "acid" 7 11 700 ∷ [])
unfolding keep has_span all_entities
get-group_by_span_example = get-group_by_span acid_span models

-- Floats as thousandths, rounded down.
abbrev thousandths : Arithmetic
thousandths = record {
  tenths = λ n. n * 100;
  of_nat = λ n. n * 1_000;
  add = λ x y. x + y;
  mul = λ x y. (x * y) / 1_000;
  div = λ x y. (x * 1_000) / y;
}

abbrev typed : String → ℕ → ℕ → String → Entity (Origin ℕ)
typed model_id start end type = record {
  text = "word";
  type = type;
  start = start;
  end = end;
  confidence = 900;
  rest = record { model_id = some model_id; sources = []; metadata = of_model 0 };
}

abbrev three_models : List (List (Entity (Origin ℕ)))
three_models =
    (typed "a" 5 9 "DRUG" ∷ [])
    ∷ (typed "b" 5 9 "GENE" ∷ typed "b" 0 4 "DRUG" ∷ [])
    ∷ (typed "c" 5 9 "GENE" ∷ [])
    ∷ []

abbrev types : List (Entity (Origin ℕ)) → List (ℕ × String × ℕ)
types es = map (λ e. (e.start, e.type, e.confidence)) es

majority_run :
    (majority_vote thousandths three_models >>= λ es. ok (types es))
    ≡ ok ((0, "DRUG", 630) ∷ (5, "GENE", 749) ∷ [])
unfolding majority_vote group_by_span ◌>>=◌ append_to put get count_types first_of sort insert sum
    keep
majority_run = refl

majority_vote_elects_example :
    Returns
      (λ es.
        IsSorted position_le es
        × ((k : SpanKey)
            → length (keep (has_span k) es)
              ≡ min 1 (length (keep (has_span k) (all_entities three_models))))
        × All
            (λ e.
              (t : String)
              → votes t (keep (has_span (span_of e)) (all_entities three_models))
                ≤ votes e.type (keep (has_span (span_of e)) (all_entities three_models)))
            es)
      (majority_vote thousandths three_models)
majority_vote_elects_example = majority_vote_elects thousandths three_models

intersection_run : types (intersection_merge thousandths three_models) ≡ (5, "GENE", 1_000) ∷ []
unfolding intersection_merge has spans_of common first_at firsts agreed keep count_types get put
    sort insert sum
intersection_run = refl

intersection_merge_common_example :
    let models = three_models in
    let merged = intersection_merge thousandths models in
    IsSorted position_le merged
    × ((k : SpanKey) → length (keep (has_span k) merged) ≡ (if all_find k models then 1 else 0))
    × All (λ e. IsWinner (firsts (span_of e) models) e.type) merged
intersection_merge_common_example =
    intersection_merge_common thousandths (typed "a" 5 9 "DRUG" ∷ [])
      (typed "b" 5 9 "GENE" ∷ typed "b" 0 4 "DRUG" ∷ []) ((typed "c" 5 9 "GENE" ∷ []) ∷ [])
