-- ===== src/Ensemble/Votes.antt =====
-- The votes of domain_nlp/pipeline/ensemble.py, the intersection, the dispatch, and the agreement.
pub mod Counts
pub mod Majority
use tei_nlp_converter.Base.{
  ℕ, ◌+◌, min, String, Bool, true, false, not, ◌&&◌, ◌||◌, Option, none, some, List, [], ◌∷◌, ◌++◌,
  Dict, get, put, append_to, ◌==◌, string_key, nat_beq, ltb, leb, if◌then◌else◌, length, keep, map,
  sort, Result, ok, raise, index_error, other_error, diverges, ◌>>=◌,
}
use tei_nlp_converter.Ensemble.{
  Entity, SpanKey, span_key, span_of, position_le, all_entities, union_merge, group_by_span,
}

-- Arithmetic on floats, each given by its number: `tenths n` is the float for n/10, `of_nat` for an integer.
pub record Arithmetic : Type 0 where
  pub tenths : ℕ → ℕ
  pub of_nat : ℕ → ℕ
  pub add : ℕ → ℕ → ℕ
  pub mul : ℕ → ℕ → ℕ
  pub div : ℕ → ℕ → ℕ

-- The metadata of an entity: a model's, or what a merge writes.
pub data Metadata {ℓ} (M : Type ℓ) : Type ℓ where
  of_model : M → Metadata M
  voted : ℕ → ℕ → ℕ → Dict String ℕ → Metadata M
  weighed : ℕ → Dict String ℕ → Metadata M
  empty : Metadata M

pub record Origin {ℓ} (M : Type ℓ) : Type ℓ where
  pub model_id : Option String
  pub sources : List String
  pub metadata : Metadata M

-- `Counter`, and `most_common(1)`: the first of the highest counts.
abbrev pub or_zero : Option ℕ → ℕ
or_zero none = 0
or_zero (some n) = n

abbrev pub best : String × ℕ → List (String × ℕ) → String × ℕ
best x [] = x
best x (y ∷ ys) = best (if ltb x.1 y.1 then y else x) ys

abbrev pub most_common : List (String × ℕ) → Option (String × ℕ)
most_common [] = none
most_common (x ∷ xs) = some (best x xs)

-- `[m for m in ids if m]`
abbrev pub present : List (Option String) → List String
present [] = []
present (none ∷ ids) = present ids
present (some m ∷ ids) = let rest = present ids in if m == "" then rest else m ∷ rest

module _ {ℓ} {R : Type ℓ} where
  unfoldable pub count_types : List (Entity R) → Dict String ℕ → Dict String ℕ
  count_types [] d = d
  count_types (e ∷ es) d = count_types es (put e.type (or_zero (get e.type d) + 1) d)

  abbrev pub of_type : String → Entity R → Bool
  of_type t e = e.type == t

  -- `next(e for e in entities if e.type == t)`
  unfoldable pub first_of : String → List (Entity R) → Option (Entity R)
  first_of t [] = none
  first_of t (e ∷ es) = let rest = first_of t es in if of_type t e then some e else rest

module _ (a : Arithmetic) where
  -- `sum`
  unfoldable pub total : List ℕ → ℕ → ℕ
  total [] n = n
  total (x ∷ xs) n = total xs (a.add n x)

  unfoldable pub sum : List ℕ → ℕ
  unfolding total
  sum xs = total xs (a.of_nat 0)

  abbrev pub average : List ℕ → ℕ
  average xs = a.div (sum xs) (a.of_nat (length xs))

abbrev pub ids {ℓ} : {M : Type ℓ} → List (Entity (Origin M)) → List String
ids es = present (map (λ e. e.rest.model_id) es)

module _ {ℓ} {M : Type ℓ} (a : Arithmetic) where
  -- The merged entity of a span with several entities.
  unfoldable pub merged :
      SpanKey → List (Entity (Origin M)) → String → ℕ → Entity (Origin M) → Entity (Origin M)
  merged span es winning_type vote_count base =
      let agreement_ratio = a.div (a.of_nat vote_count) (a.of_nat (length es)) in
      let avg_confidence = average a (map (λ e. e.confidence) (keep (of_type winning_type) es)) in
      let final_confidence =
        a.mul avg_confidence (a.add (a.tenths 5) (a.mul (a.tenths 5) agreement_ratio)) in
      record {
        text = base.text;
        type = winning_type;
        start = span.start;
        end = span.end;
        confidence = min final_confidence (a.of_nat 1);
        rest = record {
          model_id = some "ensemble";
          sources = ids es;
          metadata = voted vote_count (length es) agreement_ratio (count_types es []);
        };
      }

  unfoldable pub elect :
      SpanKey → List (Entity (Origin M)) → Option (String × ℕ) → Result (Entity (Origin M))
  unfolding merged
  elect span es none = raise index_error
  elect span es (some (t, n)) = elim (first_of t es) [
    | none ↦ raise (other_error "StopIteration")
    | some base ↦ ok (merged span es t n base)
  ]

  -- One round of the majority vote; an entity alone in its span keeps 0.7 of its confidence.
  unfoldable pub vote : SpanKey → List (Entity (Origin M)) → Result (Entity (Origin M))
  unfolding elect
  vote span [] = raise index_error
  vote span (e ∷ []) = ok (record e { confidence = a.mul e.confidence (a.tenths 7) })
  vote span (e ∷ f ∷ es) = elect span (e ∷ f ∷ es) (most_common (count_types (e ∷ f ∷ es) []))

  unfoldable pub vote_all :
      Dict SpanKey (List (Entity (Origin M))) → Result (List (Entity (Origin M)))
  unfolding vote
  vote_all [] = ok []
  vote_all ((span, es) ∷ groups) = do e ← vote span es; rest ← vote_all groups; ok (e ∷ rest)

  unfoldable pub majority_vote : List (List (Entity (Origin M))) → Result (List (Entity (Origin M)))
  unfolding vote_all
  majority_vote model_results = do
    consolidated ← vote_all (group_by_span model_results)
    ok (sort position_le consolidated)
