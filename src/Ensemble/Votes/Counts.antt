-- ===== src/Ensemble/Votes/Counts.antt =====
-- What a count of the types tells, and its highest.
use tei_nlp_converter.Base.{
  ℕ, ◌+◌, ◌≤◌, ◌<◌, String, some, List, [], ◌∷◌, Dict, get, put, get-put, ◌==◌, string_key, ltb,
  if◌then◌else◌, length, keep, All, Any, here, there, All-get_some, IsDistinct, IsDistinct-put, ◌≡◌,
  refl, sym, arith, Bool-cases, inl, inr, ==_iff, ==_refl,
}
use tei_nlp_converter.Ensemble.{Entity}
use tei_nlp_converter.Ensemble.Votes.{or_zero, best, most_common, count_types, of_type, first_of}

module _ {ℓ} {R : Type ℓ} where
  -- How many entities are of a type.
  unfoldable pub votes : String → List (Entity R) → ℕ
  unfolding keep
  votes t es = length (keep (of_type t) es)

  get-count_types :
      (t : String) (es : List (Entity R)) (d : Dict String ℕ)
      → or_zero (get t (count_types es d)) ≡ or_zero (get t d) + votes t es
  unfolding count_types keep votes
  get-count_types t [] d = omega arith
  get-count_types t (e ∷ es) d = ground (
    arith,
    get-count_types t es (put e.type (or_zero (get e.type d) + 1) d),
    get-put e.type t (or_zero (get e.type d) + 1) d,
    ==_iff e.type t,
  )

  count_types-IsDistinct :
      (es : List (Entity R)) (d : Dict String ℕ) → IsDistinct d → IsDistinct (count_types es d)
  unfolding count_types
  count_types-IsDistinct [] d h = h
  count_types-IsDistinct (e ∷ es) d h = count_types-IsDistinct es _ (IsDistinct-put e.type _ d h)

  pub votes_alone : (e : Entity R) (t : String) → votes t (e ∷ []) ≤ votes e.type (e ∷ [])
  unfolding votes keep
  votes_alone e t = ground (arith, ==_refl e.type)

  -- An entity of a type that has votes is found.
  pub first_of-some :
      (t : String) (es : List (Entity R))
      → 0 < votes t es
      → (e : Entity R) × (first_of t es ≡ some e)
  unfolding first_of votes keep
  first_of-some t [] h = absurd (omega (arith, h))
  first_of-some t (e ∷ es) h = elim (Bool-cases (of_type t e)) [
    | inl this ↦ (e, rw (first_of, this) refl)
    | inr other ↦
        let (f, found) = first_of-some t es (ground (arith, h)) in (f, rw (first_of, other) found)
  ]

both_below :
    (x y : String × ℕ) (top : ℕ)
    → (if ltb x.1 y.1 then y else x).1 ≤ top
    → (x.1 ≤ top) × (y.1 ≤ top)
both_below x y top h = ground (arith, h)

best_highest : (x : String × ℕ) (ys : List (String × ℕ)) → All (λ y. y.1 ≤ (best x ys).1) (x ∷ ys)
best_highest x [] = (omega arith, tt)
best_highest x (y ∷ ys) =
    let (high, all) = best_highest (if ltb x.1 y.1 then y else x) ys in
    let (first, second) = both_below x y (best x (y ∷ ys)).1 high in (first, (second, all))

best-Any : (x : String × ℕ) (ys : List (String × ℕ)) → Any (λ y. best x ys ≡ y) (x ∷ ys)
best-Any x [] = here refl
best-Any x (y ∷ ys) = elim (Bool-cases (ltb x.1 y.1)) [
  | inl more ↦ rw (best, more) (there (best-Any y ys))
  | inr less ↦
      rw (best, less) (elim (best-Any x ys) [ here p ↦ here p | there q ↦ there (there q) ])
]

get_below : (n : ℕ) (t : String) (d : Dict String ℕ) → All (λ y. y.1 ≤ n) d → or_zero (get t d) ≤ n
unfolding get
get_below n t [] h = omega arith
get_below n t ((k, v) ∷ d) h = elim (Bool-cases (k == t)) [
  | inl same ↦ rw same h.0
  | inr other ↦ rw other (get_below n t d h.1)
]

get_among :
    (x : String × ℕ) (d f : Dict String ℕ)
    → Any (λ y. x ≡ y) d
    → All (λ y. get y.0 f ≡ some y.1) d
    → get x.0 f ≡ some x.1
get_among x [] f among h = elim among [ ]
get_among x (y ∷ d) f (here same) h = rw same h.0
get_among x (y ∷ d) f (there among) h = get_among x d f among h.1

module _ {ℓ} {R : Type ℓ} where
  -- The winner of a vote: it has votes, and no type has more.
  pub record IsWinner (es : List (Entity R)) (t : String) : Type 0 where
    pub elected : 0 < votes t es
    pub highest : (t' : String) → votes t' es ≤ votes t es

  winner :
      (es : List (Entity R)) (d : Dict String ℕ)
      → ((t : String) → or_zero (get t d) ≡ votes t es)
      → IsDistinct d
      → (t' : String) → 0 < votes t' es
      → (x : String × ℕ) × (most_common d ≡ some x) × IsWinner es x.0
  unfolding get
  winner es [] counted distinct t' h = absurd (omega (arith, counted t', h))
  winner es (x ∷ d) counted distinct t' h =
      let top = best x d in
      let found = get_among top (x ∷ d) (x ∷ d) (best-Any x d) (All-get_some (x ∷ d) distinct) in
      let high : (t : String) → or_zero (get t (x ∷ d)) ≤ top.1 =
        λ t. get_below top.1 t (x ∷ d) (best_highest x d) in
      let own : votes top.0 es ≡ top.1 = rw (sym (counted top.0), found) refl in
      (
        top,
        refl,
        record {
          elected = omega (arith, own, high t', counted t', h);
          highest = λ t. omega (arith, own, high t, counted t);
        },
      )

  -- The vote on the types of some entities has a winner.
  pub most_common-count_types :
      (e : Entity R) (es : List (Entity R))
      → (x : String × ℕ) × (most_common (count_types (e ∷ es) []) ≡ some x) × IsWinner (e ∷ es) x.0
  unfolding votes keep get
  most_common-count_types e es =
      winner (e ∷ es) (count_types (e ∷ es) []) (λ t. omega (arith, get-count_types t (e ∷ es) []))
        (count_types-IsDistinct (e ∷ es) [] tt) e.type (rw (==_refl e.type) (omega arith))
