-- ===== src/Ensemble/Merge.antt =====
-- `merge` of domain_nlp/pipeline/ensemble.py: the weighted vote, the intersection, the choice among the
-- strategies, and the score of agreement.
pub mod Spans
pub mod Common
pub mod Total
use tei_nlp_converter.Base.{
  ℕ, zero, suc, min, String, Bool, true, false, ◌&&◌, ◌||◌, Option, none, some, List, [], ◌∷◌, ◌++◌,
  Dict, get, put, append_to, ◌==◌, string_key, nat_beq, ltb, leb, if◌then◌else◌, length, keep, map,
  sort, item, Result, ok, raise, index_error, other_error, diverges, ◌>>=◌,
}
use tei_nlp_converter.Ensemble.{
  Entity, SpanKey, span_key, span_eq, span_of, position_le, all_entities, union_merge,
  group_by_span,
}
use tei_nlp_converter.Ensemble.Votes.{
  Arithmetic, Metadata, weighed, empty, Origin, best, most_common, present, count_types, of_type,
  total, sum, average, ids, majority_vote,
}

-- `[x] * n`
abbrev pub repeat : ℕ → ℕ → List ℕ
repeat x zero = []
repeat x (suc n) = x ∷ repeat x n

-- `span in spans` of a set, and the set of the spans of a model, in some order.
unfoldable pub has : SpanKey → List SpanKey → Bool
has k [] = false
has k (s ∷ spans) = let rest = has k spans in (s == k) || rest

unfoldable pub spans_of {ℓ} : {R : Type ℓ} → List (Entity R) → List SpanKey
unfolding has
spans_of [] = []
spans_of (e ∷ es) =
    let rest = spans_of es in if has (span_of e) rest then rest else span_of e ∷ rest

-- The intersection with the spans of the other models.
unfoldable pub common {ℓ} : {R : Type ℓ} → List (List (Entity R)) → List SpanKey → List SpanKey
unfolding spans_of
common [] spans = spans
common (es ∷ rs) spans = common rs (keep (λ k. has k (spans_of es)) spans)

-- The first entity at a span, of each model that has one.
unfoldable pub first_at {ℓ} : {R : Type ℓ} → SpanKey → List (Entity R) → List (Entity R)
first_at k [] = []
first_at k (e ∷ es) = let rest = first_at k es in if span_of e == k then e ∷ [] else rest

unfoldable pub firsts {ℓ} : {R : Type ℓ} → SpanKey → List (List (Entity R)) → List (Entity R)
unfolding first_at
firsts k [] = []
firsts k (es ∷ rs) = first_at k es ++ firsts k rs

module _ (a : Arithmetic) where
  -- The weights that are used: as given, if there is one for each model.
  abbrev pub weights_for : ℕ → Option (List ℕ) → List ℕ
  weights_for n none = repeat (a.of_nat 1) n
  weights_for n (some weights) =
      if nat_beq (length weights) n then weights else repeat (a.of_nat 1) n

  -- A sum of zero is a `ZeroDivisionError`.
  unfoldable pub normalized : List ℕ → Result (List ℕ)
  normalized weights =
      if nat_beq (sum a weights) (a.of_nat 0)
      then raise (other_error "float division by zero")
      else ok (map (λ w. a.div w (sum a weights)) weights)

-- An entity with the weight of its model.
abbrev pub Weighted {ℓ} : Type ℓ → Type ℓ
Weighted M = Entity (Origin M) × ℕ

module _ {ℓ} {M : Type ℓ} where
  unfoldable pub add_weighted :
      List (Entity (Origin M))
      → ℕ
      → Dict SpanKey (List (Weighted M))
      → Dict SpanKey (List (Weighted M))
  add_weighted [] w groups = groups
  add_weighted (e ∷ es) w groups = add_weighted es w (append_to (span_of e) (e, w) groups)

  -- The lists have the same length.
  unfoldable pub group_weighted :
      List (List (Entity (Origin M)))
      → List ℕ
      → Dict SpanKey (List (Weighted M))
      → Dict SpanKey (List (Weighted M))
  unfolding add_weighted
  group_weighted [] weights groups = groups
  group_weighted (es ∷ rs) [] groups = groups
  group_weighted (es ∷ rs) (w ∷ weights) groups =
      group_weighted rs weights (add_weighted es w groups)

module _ {ℓ} {M : Type ℓ} (a : Arithmetic) where
  unfoldable pub type_weights : List (Weighted M) → Dict String ℕ → Dict String ℕ
  type_weights [] d = d
  type_weights ((e, w) ∷ es) d =
      type_weights es
        (put e.type (a.add (elim (get e.type d) [ none ↦ a.of_nat 0 | some n ↦ n ]) w) d)

  -- The merged entity of a span, with those that agree on the type.
  unfoldable pub weigh_merged :
      SpanKey
      → List (Weighted M)
      → Dict String ℕ
      → String
      → ℕ
      → List (Weighted M)
      → Result (Entity (Origin M))
  weigh_merged span es weights winning_type winning_weight [] = raise index_error
  weigh_merged span es weights winning_type winning_weight (base ∷ agreeing) =
      let total_weight = sum a (map (λ x. x.1) (base ∷ agreeing)) in
      let weighted_conf = sum a (map (λ x. a.mul x.0.confidence x.1) (base ∷ agreeing)) in
      let avg_confidence =
        if ltb (a.of_nat 0) total_weight then a.div weighted_conf total_weight else a.tenths 5 in
      ok (record {
        text = base.0.text;
        type = winning_type;
        start = span.start;
        end = span.end;
        confidence = min (a.mul avg_confidence winning_weight) (a.of_nat 1);
        rest = record {
          model_id = some "ensemble";
          sources = ids (map (λ x. x.0) es);
          metadata = weighed winning_weight weights;
        };
      })

  -- `max` of no items is a `ValueError`.
  unfoldable pub weigh : SpanKey → List (Weighted M) → Dict String ℕ → Result (Entity (Origin M))
  unfolding weigh_merged
  weigh span es [] = raise (other_error "max() arg is an empty sequence")
  weigh span es (x ∷ weights) = do
    winning_weight ← item (best x weights).0 (get (best x weights).0 (x ∷ weights))
    weigh_merged span es (x ∷ weights) (best x weights).0 winning_weight
        (keep (λ y. of_type (best x weights).0 y.0) es)

  unfoldable pub weigh_all : Dict SpanKey (List (Weighted M)) → Result (List (Entity (Origin M)))
  unfolding weigh type_weights
  weigh_all [] = ok []
  weigh_all ((span, es) ∷ groups) = do
    e ← weigh span es (type_weights es [])
    rest ← weigh_all groups
    ok (e ∷ rest)

  unfoldable pub weighted_vote :
      List (List (Entity (Origin M))) → Option (List ℕ) → Result (List (Entity (Origin M)))
  unfolding weigh_all group_weighted
  weighted_vote model_results weights = do
    weights' ← normalized a (weights_for a (length model_results) weights)
    consolidated ← weigh_all (group_weighted model_results weights' [])
    ok (sort position_le consolidated)

  -- The merged entity of a span that all models have.
  unfoldable pub agreed :
      SpanKey → Entity (Origin M) → List (Entity (Origin M)) → String → Entity (Origin M)
  agreed span base es winning_type =
      let avg_confidence = average a (map (λ e. e.confidence) es) in
      record {
        text = base.text;
        type = winning_type;
        start = span.start;
        end = span.end;
        confidence = min (a.mul avg_confidence (a.tenths 12)) (a.of_nat 1);
        rest = record { model_id = some "ensemble"; sources = ids es; metadata = empty };
      }

  -- Nothing is added for a span without entities; a vote on some has a winner.
  unfoldable pub agree :
      SpanKey → List (Entity (Origin M)) → Option (String × ℕ) → List (Entity (Origin M))
  unfolding agreed
  agree span [] winner = []
  agree span (base ∷ es) none = []
  agree span (base ∷ es) (some winner) = agreed span base (base ∷ es) winner.0 ∷ []

  unfoldable pub agree_all :
      List (List (Entity (Origin M))) → List SpanKey → List (Entity (Origin M))
  unfolding agree firsts
  agree_all rs [] = []
  agree_all rs (k ∷ spans) =
      agree k (firsts k rs) (most_common (count_types (firsts k rs) [])) ++ agree_all rs spans

  unfoldable pub intersection_merge : List (List (Entity (Origin M))) → List (Entity (Origin M))
  unfolding agree_all common spans_of
  intersection_merge [] = []
  intersection_merge (es ∷ []) = es
  intersection_merge (es ∷ fs ∷ rs) =
      sort position_le (agree_all (es ∷ fs ∷ rs) (common (fs ∷ rs) (spans_of es)))

  unfoldable pub merge :
      String → List (List (Entity (Origin M))) → Option (List ℕ) → Result (List (Entity (Origin M)))
  unfolding majority_vote weighted_vote intersection_merge
  merge strategy [] weights = ok []
  merge strategy (es ∷ []) weights = ok es
  merge strategy (es ∷ fs ∷ rs) weights =
      if strategy == "majority_vote"
      then majority_vote a (es ∷ fs ∷ rs)
      else (if strategy == "weighted_vote"
          then weighted_vote (es ∷ fs ∷ rs) weights
          else (if strategy == "union"
              then ok (union_merge (es ∷ fs ∷ rs))
              else (if strategy == "intersection"
                  then ok (intersection_merge (es ∷ fs ∷ rs))
                  else majority_vote a (es ∷ fs ∷ rs))))

-- The agreement on a span, and that of the models.
module _ {ℓ} {R : Type ℓ} (a : Arithmetic) where
  unfoldable pub span_agreement : ℕ → List (Entity R) → ℕ
  span_agreement models es =
      if nat_beq (length es) models
      then a.div (a.of_nat (elim (most_common (count_types es [])) [ none ↦ 0 | some x ↦ x.1 ]))
          (a.of_nat (length es))
      else a.mul (a.div (a.of_nat (length es)) (a.of_nat models)) (a.tenths 5)

  pub calculate_agreement_score : List (List (Entity R)) → ℕ
  unfolding span_agreement
  calculate_agreement_score model_results =
      let agreements =
        map (λ x. span_agreement (length model_results) x.1) (group_by_span model_results) in
      if leb (length model_results) 1
      then a.of_nat 1
      else (if nat_beq (length agreements) 0 then a.of_nat 1 else average a agreements)
