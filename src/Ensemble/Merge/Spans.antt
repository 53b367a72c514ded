-- ===== src/Ensemble/Merge/Spans.antt =====
-- The spans of the models, and those that all of them have.
use tei_nlp_converter.Base.{
  ◌<◌, Bool, true, false, ◌&&◌, ◌||◌, List, [], ◌∷◌, ◌==◌, string_key, All-keep, length, keep, All,
  All-map, ◌≡◌, refl, sym, subst, ◌∙◌, arith, Bool-cases, inl, inr, ==_iff, ==_refl,
}
use tei_nlp_converter.Ensemble.{Entity, SpanKey, span_key, span_of}
use tei_nlp_converter.Ensemble.Merge.{has, spans_of, common, first_at}

-- No span stands twice.
abbrev pub AreDistinct : List SpanKey → Type 0
AreDistinct [] = Unit
AreDistinct (s ∷ spans) = (has s spans ≡ false) × AreDistinct spans

pub has-keep :
    (k : SpanKey) (p : SpanKey → Bool) (spans : List SpanKey)
    → has k (keep p spans) ≡ (has k spans && p k)
unfolding has keep
has-keep k p [] = refl
has-keep k p (s ∷ spans) = elim (Bool-cases (s == k)) [
  | inl this ↦ elim (Bool-cases (p s)) [
    | inl kept ↦
        let kept' : p k ≡ true = subst (λ k. p k ≡ true) ((==_iff s k).0 this) kept in
        rw (kept, this, kept') refl
    | inr dropped ↦
        let dropped' : p k ≡ false = subst (λ k. p k ≡ false) ((==_iff s k).0 this) dropped in
        rw (dropped, has-keep k p spans, this, dropped') (ground arith)
  ]
  | inr other ↦ elim (Bool-cases (p s)) [
    | inl kept ↦ rw (kept, other) (has-keep k p spans)
    | inr dropped ↦ rw (dropped, other) (has-keep k p spans)
  ]
]

pub AreDistinct-keep :
    (p : SpanKey → Bool) (spans : List SpanKey) → AreDistinct spans → AreDistinct (keep p spans)
unfolding keep
AreDistinct-keep p [] h = tt
AreDistinct-keep p (s ∷ spans) h = elim (Bool-cases (p s)) [
  | inl kept ↦ rw kept (rw (has-keep s p spans, h.0) refl, AreDistinct-keep p spans h.1)
  | inr dropped ↦ rw dropped (AreDistinct-keep p spans h.1)
]

and_true : (b : Bool) → b ≡ (b && true)
and_true true = refl
and_true false = refl

and_assoc : (b c d : Bool) → ((b && c) && d) ≡ (b && (c && d))
and_assoc true c d = refl
and_assoc false c d = refl

module _ {ℓ} {R : Type ℓ} where
  -- Whether a model has the span, and whether all have it.
  abbrev pub finds : SpanKey → List (Entity R) → Bool
  finds k [] = false
  finds k (e ∷ es) = (span_of e == k) || finds k es

  abbrev pub all_find : SpanKey → List (List (Entity R)) → Bool
  all_find k [] = true
  all_find k (es ∷ rs) = finds k es && all_find k rs

  pub has-spans_of : (k : SpanKey) (es : List (Entity R)) → has k (spans_of es) ≡ finds k es
  unfolding has spans_of
  has-spans_of k [] = refl
  has-spans_of k (e ∷ es) = elim (Bool-cases (has (span_of e) (spans_of es))) [
    | inl there_so ↦ elim (Bool-cases (span_of e == k)) [
      | inl this ↦
          rw (spans_of, there_so, this)
            (subst (λ s. has s (spans_of es) ≡ true) ((==_iff (span_of e) k).0 this) there_so)
      | inr other ↦ rw (spans_of, there_so, other) (has-spans_of k es)
    ]
    | inr new ↦ rw (spans_of, new, has-spans_of k es) refl
  ]

  pub has-common :
      (k : SpanKey) (rs : List (List (Entity R))) (spans : List SpanKey)
      → has k (common rs spans) ≡ (has k spans && all_find k rs)
  unfolding common
  has-common k [] spans = and_true (has k spans)
  has-common k (es ∷ rs) spans =
      has-common k rs (keep (λ k'. has k' (spans_of es)) spans)
      ∙ rw (has-keep k (λ k'. has k' (spans_of es)) spans, has-spans_of k es)
          (and_assoc (has k spans) (finds k es) (all_find k rs))

  pub common-All {κ} :
      (P : SpanKey → Type κ) (rs : List (List (Entity R))) (spans : List SpanKey)
      → All P spans
      → AreDistinct spans
      → All P (common rs spans) × AreDistinct (common rs spans)
  unfolding common
  common-All P [] spans h k = (h, k)
  common-All P (es ∷ rs) spans h k =
      common-All P rs (keep (λ k'. has k' (spans_of es)) spans)
        (All-keep (λ k'. has k' (spans_of es)) P spans h)
        (AreDistinct-keep (λ k'. has k' (spans_of es)) spans k)

  pub spans_of-AreDistinct : (es : List (Entity R)) → AreDistinct (spans_of es)
  unfolding spans_of
  spans_of-AreDistinct [] = tt
  spans_of-AreDistinct (e ∷ es) = elim (Bool-cases (has (span_of e) (spans_of es))) [
    | inl there_so ↦ rw (spans_of, there_so) (spans_of-AreDistinct es)
    | inr new ↦ rw (spans_of, new) (new, spans_of-AreDistinct es)
  ]

  -- A span of a model has a first entity there.
  pub length-first_at :
      (k : SpanKey) (es : List (Entity R)) → finds k es ≡ true → 0 < length (first_at k es)
  unfolding first_at
  length-first_at k [] h = absurd (cc h)
  length-first_at k (e ∷ es) h = elim (Bool-cases (span_of e == k)) [
    | inl this ↦ rw (first_at, this) (omega arith)
    | inr other ↦ rw (first_at, other) (length-first_at k es (rw other at h))
  ]

  pub All-spans_of : (es : List (Entity R)) → All (λ k. finds k es ≡ true) (spans_of es)
  unfolding has
  All-spans_of es =
      All-map (spans_of es) (λ k h. sym (has-spans_of k es) ∙ h) (All-has (spans_of es))
    where
      All-has : (spans : List SpanKey) → All (λ k. has k spans ≡ true) spans
      All-has [] = tt
      All-has (s ∷ spans) =
          (rw (==_refl s) refl, All-map spans (λ k h. rw h (or_true (s == k))) (All-has spans))
        where
          or_true : (b : Bool) → (b || true) ≡ true
          or_true true = refl
          or_true false = refl
