-- ===== src/Base/Sort.antt =====
-- Python's stable `sort` by a key that `le` compares.
use mathlib.Core.Bool.{Bool, true, false}
use mathlib.Core.List.{List, [], ◌∷◌}
use mathlib.Core.Path.{◌≡◌, refl}
use mathlib.Core.Logic.{inl, inr}
use tei_nlp_converter.Base.Tests.{if◌then◌else◌, Bool-cases}
use Prim.Native.Nat.{◌+◌}
use native.Mathlib.Omega.{arith}
use tei_nlp_converter.Base.Lists.{All, Any, here, there, length, keep}

module _ {ℓ} {A : Type ℓ} (le : A → A → Bool) where
  -- before the first element that is not smaller
  unfoldable pub insert : A → List A → List A
  insert a [] = a ∷ []
  insert a (x ∷ xs) = if le a x then a ∷ x ∷ xs else x ∷ insert a xs

  unfoldable pub sort : List A → List A
  sort [] = []
  sort (x ∷ xs) = insert x (sort xs)

  -- Every element comes before all that follow it.
  abbrev pub IsSorted : List A → Type 0
  IsSorted [] = Unit
  IsSorted (x ∷ xs) = All (λ y. le x y ≡ true) xs × IsSorted xs

  pub All-insert {κ} : (P : A → Type κ) (a : A) (xs : List A) → P a → All P xs → All P (insert a xs)
  unfolding insert
  All-insert P a [] p h = (p, tt)
  All-insert P a (x ∷ xs) p h = elim (Bool-cases (le a x)) [
    | inl first ↦ rw first (p, h)
    | inr later ↦ rw later (h.0, All-insert P a xs p h.1)
  ]

  pub All-sort {κ} : (P : A → Type κ) (xs : List A) → All P xs → All P (sort xs)
  unfolding sort
  All-sort P [] h = tt
  All-sort P (x ∷ xs) h = All-insert P x (sort xs) h.0 (All-sort P xs h.1)

  All-uninsert {κ} : (P : A → Type κ) (a : A) (xs : List A) → All P (insert a xs) → P a × All P xs
  unfolding insert
  All-uninsert P a [] h = h
  All-uninsert P a (x ∷ xs) h = by_test (le a x) (All-uninsert P a xs) h
    where
      by_test :
          (b : Bool)
          → (All P (insert a xs) → P a × All P xs)
          → All P (if b then a ∷ x ∷ xs else x ∷ insert a xs)
          → P a × All P (x ∷ xs)
      by_test true more h = h
      by_test false more h = let (p, q) = more h.1 in (p, (h.0, q))

  pub All-unsort {κ} : (P : A → Type κ) (xs : List A) → All P (sort xs) → All P xs
  unfolding sort
  All-unsort P [] h = tt
  All-unsort P (x ∷ xs) h = let (p, q) = All-uninsert P x (sort xs) h in (p, All-unsort P xs q)

  Any-insert {κ} : {P : A → Type κ} (a : A) (xs : List A) → Any P (a ∷ xs) → Any P (insert a xs)
  unfolding insert
  Any-insert a [] h = h
  Any-insert a (x ∷ xs) h = elim (Bool-cases (le a x)) [
    | inl first ↦ rw first h
    | inr later ↦ rw later (elim h [
      | here p ↦ there (Any-insert a xs (here p))
      | there (here p) ↦ here p
      | there (there q) ↦ there (Any-insert a xs (there q))
    ])
  ]

  pub Any-sort {κ} : {P : A → Type κ} (xs : List A) → Any P xs → Any P (sort xs)
  unfolding sort
  Any-sort [] h = elim h [ ]
  Any-sort (x ∷ xs) (here p) = Any-insert x (sort xs) (here p)
  Any-sort (x ∷ xs) (there h) = Any-insert x (sort xs) (there (Any-sort xs h))

  length-insert : (a : A) (xs : List A) → length (insert a xs) ≡ length xs + 1
  unfolding insert
  length-insert a [] = refl
  length-insert a (x ∷ xs) = ground (arith, length-insert a xs)

  pub length-sort : (xs : List A) → length (sort xs) ≡ length xs
  unfolding sort
  length-sort [] = refl
  length-sort (x ∷ xs) = omega (arith, length-insert x (sort xs), length-sort xs)

module _ {ℓ} {A : Type ℓ} (le : A → A → Bool) (total : (a b : A) → le a b ≡ false → le b a ≡ true)
    (trans : (a b c : A) → le a b ≡ true → le b c ≡ true → le a c ≡ true) where
  below :
      (a b : A) (xs : List A)
      → le a b ≡ true
      → All (λ y. le b y ≡ true) xs
      → All (λ y. le a y ≡ true) xs
  below a b [] h k = tt
  below a b (x ∷ xs) h k = (trans a b x h k.0, below a b xs h k.1)

  insert-IsSorted : (a : A) (xs : List A) → IsSorted le xs → IsSorted le (insert le a xs)
  unfolding insert
  insert-IsSorted a [] h = (tt, tt)
  insert-IsSorted a (x ∷ xs) h = elim (Bool-cases (le a x)) [
    | inl first ↦ rw first ((first, below a x xs first h.0), h)
    | inr later ↦
        rw later
          (All-insert le (λ y. le x y ≡ true) a xs (total a x later) h.0, insert-IsSorted a xs h.1)
  ]

  pub sort-IsSorted : (xs : List A) → IsSorted le (sort le xs)
  unfolding sort
  sort-IsSorted [] = tt
  sort-IsSorted (x ∷ xs) = insert-IsSorted x (sort le xs) (sort-IsSorted xs)

module _ {ℓ} {A : Type ℓ} (le : A → A → Bool) (p : A → Bool) where
  length-keep-insert :
      (a : A) (xs : List A) → length (keep p (insert le a xs)) ≡ length (keep p (a ∷ xs))
  unfolding insert keep
  length-keep-insert a [] = refl
  length-keep-insert a (x ∷ xs) = ground (arith, length-keep-insert a xs)

  -- Sorting keeps how many satisfy a test.
  pub length-keep-sort : (xs : List A) → length (keep p (sort le xs)) ≡ length (keep p xs)
  unfolding sort keep
  length-keep-sort [] = refl
  length-keep-sort (x ∷ xs) = ground (arith, length-keep-insert x (sort le xs), length-keep-sort xs)
