-- ===== src/Ensemble/Union.antt =====
-- The union of what the models found has no overlaps.
use tei_nlp_converter.Base.{
  ℕ, ◌≤◌, ◌<◌, true, false, List, [], ◌∷◌, ltb, ◌≡◌, arith, All, All-append, Bool-cases, inl, inr,
  sort, IsSorted, All-sort,
}
use tei_nlp_converter.Ensemble.{
  Entity, entities_overlap, position_le, sort_position-IsSorted, all_entities, place, place_all,
  union_merge,
}

module _ {ℓ} {R : Type ℓ} where
  -- No two of the entities overlap.
  abbrev pub IsApart : List (Entity R) → Type 0
  IsApart [] = Unit
  IsApart (x ∷ xs) = All (λ y. entities_overlap x y ≡ false) xs × IsApart xs

  abbrev pub IsForward : Entity R → Type 0
  IsForward e = e.start < e.end

  All-place {κ} :
      (P : Entity R → Type κ) (e : Entity R) (xs : List (Entity R))
      → P e
      → All P xs
      → All P (place e xs)
  unfolding place
  All-place P e [] p h = (p, tt)
  All-place P e (x ∷ xs) p h = elim (Bool-cases (entities_overlap e x)) [
    | inl over ↦ rw over (elim (Bool-cases (ltb x.confidence e.confidence)) [
      | inl more ↦ rw more (p, h.1)
      | inr less ↦ rw less h
    ])
    | inr apart ↦ rw apart (h.0, All-place P e xs p h.1)
  ]

  -- Of entities that start not behind `e`, what is apart from one that overlaps `e` is apart from `e`.
  apart_from :
      (e x : Entity R) (ys : List (Entity R))
      → IsForward x
      → x.start ≤ e.start
      → entities_overlap e x ≡ true
      → All (λ y. y.start ≤ e.start) ys
      → All (λ y. entities_overlap x y ≡ false) ys
      → All (λ y. entities_overlap e y ≡ false) ys
  apart_from e x [] f before over starts apart = tt
  apart_from e x (y ∷ ys) f before over starts apart =
      (ground (arith, starts.0, apart.0), apart_from e x ys f before over starts.1 apart.1)

  place-IsApart :
      (e : Entity R) (xs : List (Entity R))
      → All IsForward xs
      → All (λ x. x.start ≤ e.start) xs
      → IsApart xs
      → IsApart (place e xs)
  unfolding place
  place-IsApart e [] f before apart = (tt, tt)
  place-IsApart e (x ∷ xs) f before apart = elim (Bool-cases (entities_overlap e x)) [
    | inl over ↦ rw over (elim (Bool-cases (ltb x.confidence e.confidence)) [
      | inl more ↦ rw more (apart_from e x xs f.0 before.0 over before.1 apart.0, apart.1)
      | inr less ↦ rw less apart
    ])
    | inr free ↦ rw free (
      All-place (λ y. entities_overlap x y ≡ false) e xs (ground arith) apart.0,
      place-IsApart e xs f.1 before.1 apart.1,
    )
  ]

  weaken :
      (b b' : ℕ) (xs : List (Entity R))
      → b ≤ b'
      → All (λ x. x.start ≤ b) xs
      → All (λ x. x.start ≤ b') xs
  weaken b b' [] h below = tt
  weaken b b' (x ∷ xs) h below = (omega (arith, below.0), weaken b b' xs h below.1)

  starts_later :
      (e : Entity R) (es : List (Entity R))
      → All (λ y. position_le e y ≡ true) es
      → All (λ y. e.start ≤ y.start) es
  starts_later e [] h = tt
  starts_later e (y ∷ ys) h = (ground (arith, h.0), starts_later e ys h.1)

  place_all-IsApart :
      (b : ℕ) (es xs : List (Entity R))
      → IsSorted position_le es
      → All IsForward es
      → All (λ e. b ≤ e.start) es
      → All IsForward xs
      → All (λ x. x.start ≤ b) xs
      → IsApart xs
      → IsApart (place_all es xs)
  unfolding place_all
  place_all-IsApart b [] xs sorted f from g below apart = apart
  place_all-IsApart b (e ∷ es) xs sorted f from g below apart =
      let reached = weaken b e.start xs from.0 below in
      place_all-IsApart e.start es (place e xs) sorted.1 f.1 (starts_later e es sorted.0)
        (All-place IsForward e xs f.0 g)
        (All-place (λ x. x.start ≤ e.start) e xs (omega arith) reached)
        (place-IsApart e xs g reached apart)

  All-place_all {κ} :
      (P : Entity R → Type κ) (es xs : List (Entity R))
      → All P es
      → All P xs
      → All P (place_all es xs)
  unfolding place_all
  All-place_all P [] xs p h = h
  All-place_all P (e ∷ es) xs p h = All-place_all P es (place e xs) p.1 (All-place P e xs p.0 h)

  All-all_entities {κ} :
      (P : Entity R → Type κ) (rs : List (List (Entity R)))
      → All (All P) rs
      → All P (all_entities rs)
  unfolding all_entities
  All-all_entities P [] h = tt
  All-all_entities P (es ∷ rs) h = All-append P es (all_entities rs) h.0 (All-all_entities P rs h.1)

  zero_below : (es : List (Entity R)) → All (λ e. 0 ≤ e.start) es
  zero_below [] = tt
  zero_below (e ∷ es) = (omega arith, zero_below es)

  -- If every entity of the models ends behind its start, no two entities of their union overlap, and
  -- what holds of all entities of the models holds of all of the union.
  pub union_merge-IsApart {κ} :
      (P : Entity R → Type κ) (model_results : List (List (Entity R)))
      → All (All IsForward) model_results
      → All (All P) model_results
      → IsApart (union_merge model_results) × All P (union_merge model_results)
  unfolding union_merge
  union_merge-IsApart P model_results forward h =
      let es = sort position_le (all_entities model_results) in
      (
        place_all-IsApart 0 es [] (sort_position-IsSorted (all_entities model_results))
            (All-sort position_le IsForward _ (All-all_entities IsForward model_results forward))
            (zero_below es) tt tt tt,
        All-place_all P es [] (All-sort position_le P _ (All-all_entities P model_results h)) tt,
      )
