-- ===== src/Ensemble/Merge/Total.antt =====
-- Which merges cannot raise.
use tei_nlp_converter.Base.{
  ℕ, String, Option, List, [], ◌∷◌, ◌==◌, string_key, ==_ne, ok, ◌≡◌, ◌≢◌, refl, Bool-cases, inl,
  inr,
}
use tei_nlp_converter.Ensemble.{Entity, union_merge}
use tei_nlp_converter.Ensemble.Votes.{Arithmetic, Origin}
use tei_nlp_converter.Ensemble.Votes.Majority.{majority_vote_elects}
use tei_nlp_converter.Ensemble.Merge.{intersection_merge, merge}

-- A merge that takes no weights gives entities.
pub merge_returns {ℓ} :
    {M : Type ℓ} (a : Arithmetic) (strategy : String) (rs : List (List (Entity (Origin M))))
    (weights : Option (List ℕ))
    → strategy ≢ "weighted_vote"
    → (es : List (Entity (Origin M))) × (merge a strategy rs weights ≡ ok es)
unfolding merge
merge_returns a strategy [] weights h = ([], refl)
merge_returns a strategy (es ∷ []) weights h = (es, refl)
merge_returns a strategy (es ∷ fs ∷ rs) weights h =
    let models = es ∷ fs ∷ rs in
    let vote = majority_vote_elects a models in
    let unweighted = ==_ne strategy "weighted_vote" h in
    elim (Bool-cases (strategy == "majority_vote")) [
      | inl majority ↦ (vote.value, rw (merge, majority) vote.is_ok)
      | inr other ↦ elim (Bool-cases (strategy == "union")) [
        | inl union ↦ (union_merge models, rw (merge, other, unweighted, union) refl)
        | inr other' ↦ elim (Bool-cases (strategy == "intersection")) [
          | inl intersection ↦ (
            intersection_merge a models,
            rw (merge, other, unweighted, other', intersection) refl,
          )
          | inr unknown ↦ (vote.value, rw (merge, other, unweighted, other', unknown) vote.is_ok)
        ]
      ]
    ]
