-- ===== src/Patterns/Extract/Clash.antt =====
-- Entities whose spans do not clash, and how the tests on the spans tell.
use tei_nlp_converter.Base.{
  ℕ, ◌≤◌, String, Bool, true, false, ◌||◌, List, [], ◌∷◌, ◌++◌, string_key, sort, insert, ◌≡◌, refl,
  ap, arith, All, Any, here, there, All-append, All-sort, All-insert, Bool-cases, inl, inr,
}
use tei_nlp_converter.Patterns.{Match, StructuredEntity}
use tei_nlp_converter.Patterns.Extract.{
  Span, same_span, spans_overlap, has_span, overlaps, rank, span_of, starts_before,
}

-- Two spans that may not both be selected.
abbrev pub clash : Span → Span → Bool
clash s t = same_span s t || spans_overlap s t

pub clash_sym : (s t : Span) → clash s t ≡ false → clash t s ≡ false
clash_sym s t h = ground arith

pub clash_refl : (s : Span) → clash s s ≡ true
clash_refl s = ground arith

module _ {κ} {F : Type κ} where
  abbrev pub place_of : StructuredEntity F → Span
  place_of e = (e.start, e.end)

  -- No two of the entities clash.
  abbrev pub IsApart : List (StructuredEntity F) → Type 0
  IsApart [] = Unit
  IsApart (e ∷ es) = All (λ f. clash (place_of e) (place_of f) ≡ false) es × IsApart es

  abbrev pub rank_of : StructuredEntity F → ℕ
  rank_of e = rank e.metadata.priority

  -- The entity takes the place of a match of a pattern of the priority.
  abbrev pub Takes : Match → String → StructuredEntity F → Type 0
  Takes m priority e = (clash (place_of e) (span_of m) ≡ true) × (rank_of e ≤ rank priority)

  pub IsApart-snoc :
      (e : StructuredEntity F) (es : List (StructuredEntity F))
      → IsApart es
      → All (λ f. clash (place_of f) (place_of e) ≡ false) es
      → IsApart (es ++ e ∷ [])
  IsApart-snoc e [] apart free = (tt, tt)
  IsApart-snoc e (f ∷ es) apart free =
      (All-append _ es (e ∷ []) apart.0 (free.0, tt), IsApart-snoc e es apart.1 free.1)

  pub IsApart-insert :
      (e : StructuredEntity F) (es : List (StructuredEntity F))
      → All (λ f. clash (place_of e) (place_of f) ≡ false) es
      → IsApart es
      → IsApart (insert starts_before e es)
  unfolding insert
  IsApart-insert e [] free apart = (tt, tt)
  IsApart-insert e (f ∷ es) free apart = elim (Bool-cases (starts_before e f)) [
    | inl first ↦ rw first (free, apart)
    | inr later ↦ rw later (
      All-insert starts_before _ e es (clash_sym (place_of e) (place_of f) free.0) apart.0,
      IsApart-insert e es free.1 apart.1,
    )
  ]

  pub IsApart-sort : (es : List (StructuredEntity F)) → IsApart es → IsApart (sort starts_before es)
  unfolding sort
  IsApart-sort [] apart = tt
  IsApart-sort (e ∷ es) apart =
      IsApart-insert e (sort starts_before es) (All-sort starts_before _ es apart.0)
        (IsApart-sort es apart.1)

  -- The spans of entities.
  abbrev pub places : List (StructuredEntity F) → List Span
  places [] = []
  places (e ∷ es) = place_of e ∷ places es

  pub places-snoc :
      (e : StructuredEntity F) (es : List (StructuredEntity F))
      → places (es ++ e ∷ []) ≡ places es ++ place_of e ∷ []
  places-snoc e [] = refl
  places-snoc e (f ∷ es) = ap (λ spans. place_of f ∷ spans) (places-snoc e es)

  pub free_of :
      (s : Span) (es : List (StructuredEntity F))
      → has_span s (places es) ≡ false
      → overlaps s (places es) ≡ false
      → All (λ f. clash (place_of f) s ≡ false) es
  unfolding has_span overlaps
  free_of s [] h k = tt
  free_of s (f ∷ es) h k = (ground arith, free_of s es (ground arith) (ground arith))

  pub taken_by :
      (s : Span) (es : List (StructuredEntity F))
      → (has_span s (places es) || overlaps s (places es)) ≡ true
      → Any (λ f. clash (place_of f) s ≡ true) es
  unfolding has_span overlaps
  taken_by s [] h = absurd (cc h)
  taken_by s (f ∷ es) h = elim (Bool-cases (clash (place_of f) s)) [
    | inl here_so ↦ here here_so
    | inr free ↦ there (taken_by s es (ground arith))
  ]
