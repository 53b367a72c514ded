-- ===== src/Ensemble/Votes/Majority.antt =====
-- The majority vote elects one entity for each span.
use tei_nlp_converter.Base.{
  ℕ, ◌≤◌, ◌<◌, min, String, true, Option, none, some, List, [], ◌∷◌, Dict, get, members, ◌==◌,
  string_key, keep-All, length, length-keep-sort, keep, IsSorted, All, All-map, All-sort,
  All-get_some, IsDistinct, Returns, Returns-ok, Returns-bind, ◌≡◌, refl, sym, ap, subst, ◌∙◌,
  arith, Bool-cases, Option-cases, inl, inr, ==_iff,
}
use tei_nlp_converter.Ensemble.{
  Entity, SpanKey, span_key, span_of, position_le, sort_position-IsSorted, all_entities,
  group_by_span,
}
use tei_nlp_converter.Ensemble.Groups.{
  has_span, group_by_span-AreGroups, members-group_by_span, filled_at,
}
use tei_nlp_converter.Ensemble.Votes.{
  Arithmetic, Origin, merged, elect, vote, vote_all, majority_vote,
}
use tei_nlp_converter.Ensemble.Votes.Counts.{
  votes, first_of-some, votes_alone, most_common-count_types,
}

-- One if there is a group, else none.
abbrev one_of {ℓ} : {A : Type ℓ} → Option A → ℕ
one_of none = 0
one_of (some x) = 1

module _ {ℓ} {R : Type ℓ} where
  -- Each group holds the entities of its span.
  All-group_by_span :
      (rs : List (List (Entity R)))
      → All
          (λ x. (x.1 ≡ keep (has_span x.0) (all_entities rs)) × (0 < length x.1))
          (group_by_span rs)
  All-group_by_span rs =
      both (group_by_span rs)
        (All-map (group_by_span rs)
          (λ x found. ap members (sym found) ∙ members-group_by_span x.0 rs)
          (All-get_some (group_by_span rs) (group_by_span-AreGroups rs).distinct))
        (group_by_span-AreGroups rs).filled
    where
      both :
          (d : Dict SpanKey (List (Entity R)))
          → All (λ x. x.1 ≡ keep (has_span x.0) (all_entities rs)) d
          → All (λ x. 0 < length x.1) d
          → All (λ x. (x.1 ≡ keep (has_span x.0) (all_entities rs)) × (0 < length x.1)) d
      both [] h k = tt
      both (x ∷ d) h k = ((h.0, k.0), both d h.1 k.1)

  one_of_group :
      (rs : List (List (Entity R))) (k : SpanKey)
      → one_of (get k (group_by_span rs)) ≡ min 1 (length (keep (has_span k) (all_entities rs)))
  one_of_group rs k = elim (Option-cases (get k (group_by_span rs))) [
    | inl nothing ↦
        let empty : [] ≡ keep (has_span k) (all_entities rs) =
          rw nothing at (members-group_by_span k rs) in
        rw (nothing, sym empty) refl
    | inr (g, found) ↦
        let same : g ≡ keep (has_span k) (all_entities rs) =
          rw found at (members-group_by_span k rs) in
        let filled = filled_at k (group_by_span rs) g (group_by_span-AreGroups rs).filled found in
        rw (found, sym same) (omega (arith, filled))
  ]

  -- The entity is at the span, and of a type that no other one outvotes among the entities.
  pub record IsElected (span : SpanKey) (es : List (Entity R)) (e : Entity R) : Type 0 where
    pub placed : span_of e ≡ span
    pub highest : (t : String) → votes t es ≤ votes e.type es

module _ {ℓ} {M : Type ℓ} (a : Arithmetic) where
  vote_elects :
      (span : SpanKey) (es : List (Entity (Origin M)))
      → 0 < length es
      → All (λ e. has_span span e ≡ true) es
      → Returns (IsElected span es) (vote a span es)
  unfolding vote elect merged has_span
  vote_elects span [] filled at = absurd (omega (arith, filled))
  vote_elects span (e ∷ []) filled at =
      Returns-ok _ (record { placed = (==_iff (span_of e) span).0 at.0; highest = votes_alone e })
  vote_elects span (e ∷ f ∷ es) filled at =
      let (x, most, won) = most_common-count_types e (f ∷ es) in
      let (base, first) = first_of-some x.0 (e ∷ f ∷ es) won.elected in
      rw (most, elect, first) (Returns-ok _ (record { placed = refl; highest = won.highest }))

  -- Of groups with different spans, one entity is elected for each.
  vote_all_elects {μ} :
      (Q : Entity (Origin M) → Type μ) (groups : Dict SpanKey (List (Entity (Origin M))))
      → IsDistinct groups
      → All
          (λ x.
            (0 < length x.1)
            × All (λ e. has_span x.0 e ≡ true) x.1
            × ((e : Entity (Origin M)) → IsElected x.0 x.1 e → Q e))
          groups
      → Returns
          (λ es. ((k : SpanKey) → length (keep (has_span k) es) ≡ one_of (get k groups)) × All Q es)
          (vote_all a groups)
  unfolding vote_all get keep has_span
  vote_all_elects Q [] distinct h = Returns-ok [] ((λ k. refl), tt)
  vote_all_elects Q ((span, es) ∷ groups) distinct h =
      Returns-bind _ _ (vote_elects span es h.0.0 h.0.1) λ e elected.
        Returns-bind _ _ (vote_all_elects Q groups distinct.1 h.1) λ rest good.
          Returns-ok (e ∷ rest) (
            (λ k.
                let at_k : has_span k e ≡ (span == k) = ap (λ s. s == k) elected.placed in
                elim (Bool-cases (span == k)) [
                  | inl this ↦
                      let none_at_k : get k groups ≡ none =
                        subst (λ s. get s groups ≡ none) ((==_iff span k).0 this) distinct.0 in
                      rw (at_k, this, good.0 k, none_at_k) refl
                  | inr other ↦ rw (at_k, other) (good.0 k)
                ]),
            (h.0.2 e elected, good.1),
          )

  -- The majority vote returns entities that are sorted by position, one for each span that an entity of the
  -- models has and none for another span, and no type has more votes among the entities of that span, of
  -- all models, than the type of the entity that is returned for it.
  pub majority_vote_elects :
      (model_results : List (List (Entity (Origin M))))
      → Returns
          (λ es.
            IsSorted position_le es
            × ((k : SpanKey)
                → length (keep (has_span k) es)
                  ≡ min 1 (length (keep (has_span k) (all_entities model_results))))
            × All
                (λ e.
                  (t : String)
                  → votes t (keep (has_span (span_of e)) (all_entities model_results))
                    ≤ votes e.type (keep (has_span (span_of e)) (all_entities model_results)))
                es)
          (majority_vote a model_results)
  unfolding majority_vote
  majority_vote_elects model_results =
      Returns-bind _ _
        (vote_all_elects _ (group_by_span model_results)
          (group_by_span-AreGroups model_results).distinct
          (All-map (group_by_span model_results)
            (λ x held. (
              held.1,
              rw held.0 (keep-All (has_span x.0) (all_entities model_results)),
              λ e elected t.
                  subst (λ es. votes t es ≤ votes e.type es)
                    (held.0
                      ∙ ap (λ s. keep (has_span s) (all_entities model_results))
                          (sym elected.placed))
                    (elected.highest t),
            ))
            (All-group_by_span model_results)))
        λ es good. Returns-ok _ (
          sort_position-IsSorted es,
          (λ k.
              length-keep-sort position_le (has_span k) es
              ∙ good.0 k
              ∙ one_of_group model_results k),
          All-sort position_le _ es good.1,
        )
