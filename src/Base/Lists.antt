-- ===== src/Base/Lists.antt =====
-- Lists measured and indexed by native numbers, and predicates over lists.
use Prim.Native.Nat.{ℕ, zero, suc, ◌+◌}
use mathlib.Core.Path.{◌≡◌, refl}
use mathlib.Core.Bool.{Bool, true}
use mathlib.Core.Logic.{inl, inr}
use mathlib.Core.List.{List, [], ◌∷◌, ◌++◌}
use mathlib.Core.Option.{Option, none, some}
use native.Mathlib.Omega.{arith}
use tei_nlp_converter.Base.Tests.{if◌then◌else◌, Bool-cases}

module _ {ℓ} {A : Type ℓ} where
  abbrev pub length : List A → ℕ
  length [] = 0
  length (x ∷ xs) = suc (length xs)

  abbrev pub get_elem? : List A → ℕ → Option A
  get_elem? [] i = none
  get_elem? (x ∷ xs) zero = some x
  get_elem? (x ∷ xs) (suc i) = get_elem? xs i

  abbrev pub take : ℕ → List A → List A
  take zero xs = []
  take (suc n) [] = []
  take (suc n) (x ∷ xs) = x ∷ take n xs

  abbrev pub drop : ℕ → List A → List A
  drop zero xs = xs
  drop (suc n) [] = []
  drop (suc n) (x ∷ xs) = drop n xs

  pub length-append : (xs ys : List A) → length (xs ++ ys) ≡ length xs + length ys
  length-append [] ys = omega arith
  length-append (x ∷ xs) ys = omega (arith, length-append xs ys)

  -- `[x for x in xs if p(x)]`
  unfoldable pub keep : (A → Bool) → List A → List A
  keep p [] = []
  keep p (x ∷ xs) = let rest = keep p xs in if p x then x ∷ rest else rest

  pub keep-append : (p : A → Bool) (xs ys : List A) → keep p (xs ++ ys) ≡ keep p xs ++ keep p ys
  unfolding keep
  keep-append p [] ys = refl
  keep-append p (x ∷ xs) ys = ground (arith, keep-append p xs ys)

module _ {ℓ κ} {A : Type ℓ} (P : A → Type κ) where
  abbrev pub All : List A → Type κ
  All [] = Unit
  All (x ∷ xs) = P x × All xs

  pub All-append : (xs ys : List A) → All xs → All ys → All (xs ++ ys)
  All-append [] ys hx hy = hy
  All-append (x ∷ xs) ys hx hy = (hx.0, All-append xs ys hx.1 hy)

-- Some element satisfies a predicate.
pub data Any {ℓ κ} {A : Type ℓ} (P : A → Type κ) : List A → Type (ℓ ⊔ κ) where
  here : {x : A} {xs : List A} → P x → Any P (x ∷ xs)
  there : {x : A} {xs : List A} → Any P xs → Any P (x ∷ xs)

module _ {ℓ κ μ} {A : Type ℓ} {P : A → Type κ} {Q : A → Type μ} where
  pub All-map : (xs : List A) → ((a : A) → P a → Q a) → All P xs → All Q xs
  All-map [] f h = tt
  All-map (x ∷ xs) f h = (f x h.0, All-map xs f h.1)

  pub Any-map : {xs : List A} → ((a : A) → P a → Q a) → Any P xs → Any Q xs
  Any-map f (here p) = here (f _ p)
  Any-map f (there h) = there (Any-map f h)

  pub Any-All : (xs : List A) → Any P xs → All Q xs → Any (λ a. P a × Q a) xs
  Any-All [] h q = elim h [ ]
  Any-All (x ∷ xs) (here p) q = here (p, q.0)
  Any-All (x ∷ xs) (there h) q = there (Any-All xs h q.1)

module _ {ℓ κ} {A : Type ℓ} {P : A → Type κ} where
  pub Any-left : (xs ys : List A) → Any P xs → Any P (xs ++ ys)
  Any-left [] ys h = elim h [ ]
  Any-left (x ∷ xs) ys (here p) = here p
  Any-left (x ∷ xs) ys (there h) = there (Any-left xs ys h)

  pub Any-right : (xs ys : List A) → Any P ys → Any P (xs ++ ys)
  Any-right [] ys h = h
  Any-right (x ∷ xs) ys h = there (Any-right xs ys h)

-- Every element of a list is one of its elements.
pub All-Any {ℓ} : {A : Type ℓ} (xs : List A) → All (λ a. Any (λ b. a ≡ b) xs) xs
All-Any [] = tt
All-Any (x ∷ xs) = (here refl, All-map xs (λ a h. there h) (All-Any xs))

module _ {ℓ} {A : Type ℓ} (p : A → Bool) where
  -- What is kept passes the test, and has what all elements have.
  pub keep-All : (xs : List A) → All (λ x. p x ≡ true) (keep p xs)
  unfolding keep
  keep-All [] = tt
  keep-All (x ∷ xs) = elim (Bool-cases (p x)) [
    | inl kept ↦ rw kept (kept, keep-All xs)
    | inr dropped ↦ rw dropped (keep-All xs)
  ]

  pub All-keep {κ} : (P : A → Type κ) (xs : List A) → All P xs → All P (keep p xs)
  unfolding keep
  All-keep P [] h = tt
  All-keep P (x ∷ xs) h = elim (Bool-cases (p x)) [
    | inl kept ↦ rw kept (h.0, All-keep P xs h.1)
    | inr dropped ↦ rw dropped (All-keep P xs h.1)
  ]
