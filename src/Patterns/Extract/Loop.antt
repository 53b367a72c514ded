-- ===== src/Patterns/Extract/Loop.antt =====
-- The loop over the matches of one pattern.
use tei_nlp_converter.Base.{
  ℕ, ◌≤◌, String, true, false, ◌||◌, List, [], ◌∷◌, ◌++◌, string_key, ◌≡◌, refl, sym, arith, All,
  Any, here, Any-All, Any-left, Any-right, All-append, Bool-cases, inl, inr, ◌⊎◌,
}
use tei_nlp_converter.Patterns.{Match, Engine, PatternRule, StructuredEntity}
use tei_nlp_converter.Patterns.Extract.{
  Floats, has_span, overlaps, rank, Found, span_of, entity_of, add_match, add_matches,
}
use tei_nlp_converter.Patterns.Extract.Clash.{
  clash_refl, IsApart, IsApart-snoc, rank_of, Takes, places, places-snoc, free_of, taken_by,
}

-- The state of the loop, whose entities so far have ranks of at most `b`.
pub record IsGood {κ} {F : Type κ} (b : ℕ) (found : Found F) : Type κ where
  pub seen : found.seen_spans ≡ places found.entities
  pub apart : IsApart found.entities
  pub ranked : All (λ e. rank_of e ≤ b) found.entities

module _ {ℓ κ} {P : Type ℓ} {F : Type κ} (engine : Engine P) (floats : Floats F)
    (domain : String) where
  -- The state after a match that is selected.
  abbrev selected : String → PatternRule → Match → Found F → Found F
  selected name rule m found = record {
    entities = found.entities ++ entity_of engine floats domain name rule m ∷ [];
    seen_spans = found.seen_spans ++ span_of m ∷ [];
  }

  add_match_cases :
      (name : String) (rule : PatternRule) (m : Match) (found : Found F)
      → ((add_match engine floats domain name rule m found ≡ found)
          × ((has_span (span_of m) found.seen_spans || overlaps (span_of m) found.seen_spans)
              ≡ true))
        ⊎ ((add_match engine floats domain name rule m found ≡ selected name rule m found)
            × (has_span (span_of m) found.seen_spans ≡ false)
            × (overlaps (span_of m) found.seen_spans ≡ false))
  unfolding add_match
  add_match_cases name rule m found = elim (Bool-cases (has_span (span_of m) found.seen_spans)) [
    | inl there_so ↦ inl (rw (add_match, there_so) refl, rw there_so refl)
    | inr absent ↦ elim (Bool-cases (overlaps (span_of m) found.seen_spans)) [
      | inl over ↦ inl (rw (add_match, absent, over) refl, rw (absent, over) refl)
      | inr free ↦ inr (rw (add_match, absent, free) refl, absent, free)
    ]
  ]

  pub add_match-IsGood :
      (name : String) (rule : PatternRule) (m : Match) (found : Found F)
      → IsGood (rank rule.priority) found
      → IsGood (rank rule.priority) (add_match engine floats domain name rule m found)
  unfolding entity_of
  add_match-IsGood name rule m found good = elim (add_match_cases name rule m found) [
    | inl (same, taken) ↦ rw same good
    | inr (more, absent, free) ↦
        let e = entity_of engine floats domain name rule m in
        rw more (record {
          seen = rw good.seen (sym (places-snoc e found.entities));
          apart = IsApart-snoc e found.entities good.apart (
              free_of (span_of m) found.entities (rw (sym good.seen) absent)
                (rw (sym good.seen) free));
          ranked = All-append _ found.entities (e ∷ []) good.ranked (omega arith, tt);
        })
  ]

  add_match-Takes :
      (name : String) (rule : PatternRule) (m : Match) (found : Found F)
      → IsGood (rank rule.priority) found
      → Any (Takes m rule.priority) (add_match engine floats domain name rule m found).entities
  unfolding entity_of
  add_match-Takes name rule m found good = elim (add_match_cases name rule m found) [
    | inl (same, taken) ↦ rw same (
        Any-All found.entities (taken_by (span_of m) found.entities (rw (sym good.seen) taken))
          good.ranked)
    | inr (more, absent, free) ↦
        rw more (Any-right found.entities _ (here (clash_refl (span_of m), omega arith)))
  ]

  All-add_match {μ} :
      (Q : StructuredEntity F → Type μ) (name : String) (rule : PatternRule) (m : Match)
      (found : Found F)
      → Q (entity_of engine floats domain name rule m)
      → All Q found.entities
      → All Q (add_match engine floats domain name rule m found).entities
  All-add_match Q name rule m found q h = elim (add_match_cases name rule m found) [
    | inl (same, taken) ↦ rw same h
    | inr (more, absent, free) ↦ rw more (All-append Q found.entities _ h (q, tt))
  ]

  Any-add_match {μ} :
      {Q : StructuredEntity F → Type μ} (name : String) (rule : PatternRule) (m : Match)
      (found : Found F)
      → Any Q found.entities
      → Any Q (add_match engine floats domain name rule m found).entities
  Any-add_match name rule m found h = elim (add_match_cases name rule m found) [
    | inl (same, taken) ↦ rw same h
    | inr (more, absent, free) ↦ rw more (Any-left found.entities _ h)
  ]

  pub Any-add_matches {μ} :
      {Q : StructuredEntity F → Type μ} (name : String) (rule : PatternRule) (ms : List Match)
      (found : Found F)
      → Any Q found.entities
      → Any Q (add_matches engine floats domain name rule ms found).entities
  unfolding add_matches
  Any-add_matches name rule [] found h = h
  Any-add_matches name rule (m ∷ ms) found h =
      Any-add_matches name rule ms (add_match engine floats domain name rule m found)
        (Any-add_match name rule m found h)

  pub add_matches-IsGood :
      (name : String) (rule : PatternRule) (ms : List Match) (found : Found F)
      → IsGood (rank rule.priority) found
      → IsGood (rank rule.priority) (add_matches engine floats domain name rule ms found)
  unfolding add_matches
  add_matches-IsGood name rule [] found good = good
  add_matches-IsGood name rule (m ∷ ms) found good =
      add_matches-IsGood name rule ms (add_match engine floats domain name rule m found)
        (add_match-IsGood name rule m found good)

  pub add_matches_take :
      (name : String) (rule : PatternRule) (ms : List Match) (found : Found F)
      → IsGood (rank rule.priority) found
      → All
          (λ m.
            Any
              (Takes m rule.priority)
              (add_matches engine floats domain name rule ms found).entities)
          ms
  unfolding add_matches
  add_matches_take name rule [] found good = tt
  add_matches_take name rule (m ∷ ms) found good =
      let next = add_match engine floats domain name rule m found in
      (
        Any-add_matches name rule ms next (add_match-Takes name rule m found good),
        add_matches_take name rule ms next (add_match-IsGood name rule m found good),
      )

  pub All-add_matches {μ} :
      (Q : StructuredEntity F → Type μ) (name : String) (rule : PatternRule) (ms : List Match)
      (found : Found F)
      → All (λ m. Q (entity_of engine floats domain name rule m)) ms
      → All Q found.entities
      → All Q (add_matches engine floats domain name rule ms found).entities
  unfolding add_matches
  All-add_matches Q name rule [] found q h = h
  All-add_matches Q name rule (m ∷ ms) found q h =
      All-add_matches Q name rule ms (add_match engine floats domain name rule m found) q.1
        (All-add_match Q name rule m found q.0 h)
