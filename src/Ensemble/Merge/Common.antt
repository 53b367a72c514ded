-- ===== src/Ensemble/Merge/Common.antt =====
-- The intersection keeps the spans that all models have.
use tei_nlp_converter.Base.{
  ◌<◌, true, false, List, [], ◌∷◌, ◌==◌, string_key, if◌then◌else◌, length, length-append,
  length-keep-sort, keep, IsSorted, All, All-map, All-sort, ◌≡◌, refl, sym, ap, subst, ◌∙◌, arith,
  Bool-cases, inl, inr, ==_iff,
}
use tei_nlp_converter.Ensemble.{
  Entity, SpanKey, span_key, span_of, position_le, sort_position-IsSorted,
}
use tei_nlp_converter.Ensemble.Groups.{has_span}
use tei_nlp_converter.Ensemble.Votes.{Arithmetic, Origin, most_common, count_types}
use tei_nlp_converter.Ensemble.Votes.Counts.{IsWinner, most_common-count_types}
use tei_nlp_converter.Ensemble.Merge.{
  has, spans_of, common, first_at, firsts, agreed, agree, agree_all, intersection_merge,
}
use tei_nlp_converter.Ensemble.Merge.Spans.{
  AreDistinct, finds, all_find, has-spans_of, has-common, common-All, spans_of-AreDistinct,
  length-first_at, All-spans_of,
}

module _ {ℓ} {M : Type ℓ} (a : Arithmetic) where
  agree_one :
      (k : SpanKey) (es : List (Entity (Origin M)))
      → 0 < length es
      → (e : Entity (Origin M)) × (agree a k es (most_common (count_types es [])) ≡ e ∷ [])
        × (span_of e ≡ k)
        × IsWinner es e.type
  unfolding agree agreed
  agree_one k [] filled = absurd (omega (arith, filled))
  agree_one k (e ∷ es) filled =
      let (x, most, won) = most_common-count_types e es in
      (agreed a k e (e ∷ es) x.0, rw (most, agree) refl, refl, won)

  agree_all_common :
      (rs : List (List (Entity (Origin M)))) (spans : List SpanKey)
      → AreDistinct spans
      → All (λ k. 0 < length (firsts k rs)) spans
      → ((k : SpanKey)
          → length (keep (has_span k) (agree_all a rs spans)) ≡ (if has k spans then 1 else 0))
        × All (λ e. IsWinner (firsts (span_of e) rs) e.type) (agree_all a rs spans)
  unfolding agree_all has has_span keep
  agree_all_common rs [] distinct filled = ((λ k. refl), tt)
  agree_all_common rs (s ∷ spans) distinct filled =
      let (counted, won) = agree_all_common rs spans distinct.1 filled.1 in
      let (e, is_one, placed, winner) = agree_one s (firsts s rs) filled.0 in
      rw (agree_all, is_one)
        (
          (λ k.
              let at_k : has_span k e ≡ (s == k) = ap (λ s. s == k) placed in
              elim (Bool-cases (s == k)) [
                | inl this ↦
                    let absent : has k spans ≡ false =
                      subst (λ k. has k spans ≡ false) ((==_iff s k).0 this) distinct.0 in
                    rw (at_k, this, counted k, absent) refl
                | inr other ↦ rw (at_k, other) (counted k)
              ]),
          (subst (λ s. IsWinner (firsts s rs) e.type) (sym placed) winner, won),
        )

  -- Of two models or more, the intersection has entities sorted by position, one for each span that every
  -- model has and none for another span; its type is among the most frequent ones of the first entities
  -- that the models have at that span.
  pub intersection_merge_common :
      (es fs : List (Entity (Origin M))) (rs : List (List (Entity (Origin M))))
      → let models = es ∷ fs ∷ rs in
        let merged = intersection_merge a models in
        IsSorted position_le merged
        × ((k : SpanKey) → length (keep (has_span k) merged) ≡ (if all_find k models then 1 else 0))
        × All (λ e. IsWinner (firsts (span_of e) models) e.type) merged
  unfolding intersection_merge firsts
  intersection_merge_common es fs rs =
      let models = es ∷ fs ∷ rs in
      let spans = common (fs ∷ rs) (spans_of es) in
      let (found, distinct) =
        common-All (λ k. finds k es ≡ true) (fs ∷ rs) (spans_of es) (All-spans_of es)
          (spans_of-AreDistinct es) in
      let filled =
        All-map spans
          (λ k h.
            omega
              (arith, length-first_at k es h, length-append (first_at k es) (firsts k (fs ∷ rs))))
          found in
      let (counted, won) = agree_all_common models spans distinct filled in
      (
        sort_position-IsSorted (agree_all a models spans),
        (λ k.
            length-keep-sort position_le (has_span k) (agree_all a models spans)
            ∙ counted k
            ∙ rw (has-common k (fs ∷ rs) (spans_of es), has-spans_of k es) refl),
        All-sort position_le _ (agree_all a models spans) won,
      )
