-- ===== src/Ensemble.antt =====
-- `_union_merge`, `_entities_overlap` and `_group_by_span` of domain_nlp/pipeline/ensemble.py.
pub mod Union
pub mod Groups
pub mod Votes
pub mod Merge
mod Examples
use tei_nlp_converter.Base.{
  ℕ, String, Bool, true, false, not, ◌&&◌, ◌||◌, List, [], ◌∷◌, ◌++◌, leb, ltb, nat_beq,
  if◌then◌else◌, sort, IsSorted, sort-IsSorted, Key, ◌==◌, Dict, append_to, ◌≡◌, ◌↔◌, refl, arith,
  nat_beq_iff,
}

-- An entity of a model, with what the merge does not read. Confidences are floats, none of them negative;
-- such a float stands as a number, in the order of the floats.
pub record Entity {ℓ} (R : Type ℓ) : Type ℓ where
  pub text : String
  pub type : String
  pub start : ℕ
  pub end : ℕ
  pub confidence : ℕ
  pub rest : R

module _ {ℓ} {R : Type ℓ} where
  abbrev pub entities_overlap : Entity R → Entity R → Bool
  entities_overlap e1 e2 = not (leb e1.end e2.start || leb e2.end e1.start)

  -- The order of `(e.start, e.end)`.
  abbrev pub position_le : Entity R → Entity R → Bool
  position_le e1 e2 = ltb e1.start e2.start || (nat_beq e1.start e2.start && leb e1.end e2.end)

  pub sort_position-IsSorted : (es : List (Entity R)) → IsSorted position_le (sort position_le es)
  sort_position-IsSorted es =
      sort-IsSorted position_le (λ a b h. ground arith) (λ a b c h k. ground arith) es

  pub all_entities : List (List (Entity R)) → List (Entity R)
  all_entities [] = []
  all_entities (es ∷ rest) = es ++ all_entities rest

  -- One round: the first entity that overlaps is kept or replaced, else the entity goes to the end.
  pub place : Entity R → List (Entity R) → List (Entity R)
  place e [] = e ∷ []
  place e (x ∷ xs) =
      let rest = place e xs in
      if entities_overlap e x
      then (if ltb x.confidence e.confidence then e ∷ xs else x ∷ xs)
      else x ∷ rest

  pub place_all : List (Entity R) → List (Entity R) → List (Entity R)
  unfolding place
  place_all [] consolidated = consolidated
  place_all (e ∷ es) consolidated = place_all es (place e consolidated)

  pub union_merge : List (List (Entity R)) → List (Entity R)
  unfolding place_all all_entities
  union_merge model_results = place_all (sort position_le (all_entities model_results)) []

pub record SpanKey : Type 0 where
  pub start : ℕ
  pub end : ℕ

abbrev pub span_eq : SpanKey → SpanKey → Bool
span_eq j k = nat_beq j.start k.start && nat_beq j.end k.end

pub span_eq_iff : (j k : SpanKey) → (span_eq j k ≡ true) ↔ (j ≡ k)
span_eq_iff j k = ground arith

instance abbrev pub span_key : Key SpanKey
span_key = record { same = span_eq; same_iff = span_eq_iff }

module _ {ℓ} {R : Type ℓ} where
  abbrev pub span_of : Entity R → SpanKey
  span_of e = record { start = e.start; end = e.end }

  -- `span_groups[key].append(entity)`
  add_to_group : Entity R → Dict SpanKey (List (Entity R)) → Dict SpanKey (List (Entity R))
  add_to_group e groups = append_to (span_of e) e groups

  group_all : List (Entity R) → Dict SpanKey (List (Entity R)) → Dict SpanKey (List (Entity R))
  unfolding add_to_group
  group_all [] groups = groups
  group_all (e ∷ es) groups = group_all es (add_to_group e groups)

  -- The two loops go through all entities of the models.
  pub group_by_span : List (List (Entity R)) → Dict SpanKey (List (Entity R))
  unfolding group_all all_entities
  group_by_span model_results = group_all (all_entities model_results) []
