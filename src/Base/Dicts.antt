-- ===== src/Base/Dicts.antt =====
-- Python's `dict` (and `OrderedDict`): a list of pairs in the order of insertion.
use mathlib.Core.Path.{◌≡◌, refl}
use mathlib.Core.Bool.{Bool, true, false}
use mathlib.Core.List.{List, [], ◌∷◌, ◌++◌}
use mathlib.Core.Option.{Option, none, some}
use native.Mathlib.Omega.{arith}
use Prim.Native.Nat.{◌+◌, ◌≤◌}
use mathlib.Core.Logic.{◌≢◌, inl, inr}
use tei_nlp_converter.Base.Lists.{length, All, All-map}
use tei_nlp_converter.Base.Tests.{if◌then◌else◌, Key, ◌==◌, Bool-cases}

abbrev pub Dict {κ ℓ} : Type κ → Type ℓ → Type (κ ⊔ ℓ)
Dict K V = List (K × V)

module _ {κ ℓ} {K : Type κ} {V : Type ℓ} ⦃e : Key K⦄ where
  -- `d.get(k)`
  unfoldable pub get : K → Dict K V → Option V
  get k [] = none
  get k ((j, v) ∷ d) = if j == k then some v else get k d

  -- `k in d`
  unfoldable pub has_key : K → Dict K V → Bool
  has_key k [] = false
  has_key k ((j, v) ∷ d) = if j == k then true else has_key k d

  -- `d[k] = v`: a new key goes to the end, an old one keeps its place
  unfoldable pub put : K → V → Dict K V → Dict K V
  put k v [] = (k, v) ∷ []
  put k v ((j, w) ∷ d) = if j == k then (j, v) ∷ d else (j, w) ∷ put k v d

  -- `del d[k]`, where `k` is there
  unfoldable pub remove : K → Dict K V → Dict K V
  remove k [] = []
  remove k ((j, w) ∷ d) = if j == k then d else (j, w) ∷ remove k d

  -- No key stands twice.
  abbrev pub IsDistinct : Dict K V → Type ℓ
  IsDistinct [] = Unit
  IsDistinct ((k, v) ∷ d) = (get k d ≡ none) × IsDistinct d

  pub has_key-get : (k : K) (d : Dict K V) → get k d ≡ none → has_key k d ≡ false
  unfolding get has_key
  has_key-get k [] h = refl
  has_key-get k ((j, v) ∷ d) h = ground (arith, has_key-get k d)

  pub get-has_key : (k : K) (d : Dict K V) → has_key k d ≡ false → get k d ≡ none
  unfolding get has_key
  get-has_key k [] h = refl
  get-has_key k ((j, v) ∷ d) h = ground (arith, get-has_key k d)

  pub get-put :
      (k j : K) (v : V) (d : Dict K V) → get j (put k v d) ≡ (if k == j then some v else get j d)
  unfolding get put
  get-put k j v [] = refl
  get-put k j v ((i, w) ∷ d) =
      ground (arith, e.same_iff k j, e.same_iff i k, e.same_iff i j, get-put k j v d)

  pub get-remove :
      (k j : K) (d : Dict K V)
      → IsDistinct d
      → get j (remove k d) ≡ (if k == j then none else get j d)
  unfolding get remove
  get-remove k j [] h = ground arith
  get-remove k j ((i, w) ∷ d) h =
      ground (arith, e.same_iff k j, e.same_iff i k, e.same_iff i j, get-remove k j d)

  pub get-remove_ne : (k j : K) (d : Dict K V) → (k == j) ≡ false → get j (remove k d) ≡ get j d
  unfolding get remove
  get-remove_ne k j [] h = refl
  get-remove_ne k j ((i, w) ∷ d) h =
      ground (arith, e.same_iff k j, e.same_iff i k, e.same_iff i j, get-remove_ne k j d)

  pub get-append : (k : K) (d f : Dict K V) → get k d ≡ none → get k (d ++ f) ≡ get k f
  unfolding get
  get-append k [] f h = refl
  get-append k ((j, v) ∷ d) f h = ground (arith, get-append k d f)

  pub length-put : (k : K) (v : V) (d : Dict K V) → length (put k v d) ≤ length d + 1
  unfolding put
  length-put k v [] = omega arith
  length-put k v ((j, w) ∷ d) = ground (arith, length-put k v d)

  -- Every key of a dictionary is found.
  pub All-get : (d : Dict K V) → All (λ x. get x.0 d ≢ none) d
  unfolding get
  All-get d = found d d (λ k h. h)
    where
      found :
          (d f : Dict K V)
          → ((k : K) → get k f ≡ none → get k d ≡ none)
          → All (λ x. get x.0 f ≢ none) d
      found [] f h = tt
      found ((k, v) ∷ d) f h =
          (λ n. ground (arith, h k n, e.same_iff k k), found d f (λ j n. ground (arith, h j n)))

  pub IsDistinct-put : (k : K) (v : V) (d : Dict K V) → IsDistinct d → IsDistinct (put k v d)
  unfolding get put
  IsDistinct-put k v [] h = (refl, tt)
  IsDistinct-put k v ((j, w) ∷ d) h = elim (Bool-cases (j == k)) [
    | inl same ↦ rw same h
    | inr other ↦ rw other (
      ground (arith, get-put k j v d, e.same_iff k j, e.same_iff j k, h.0),
      IsDistinct-put k v d h.1,
    )
  ]

  -- Where no key stands twice, every entry is found.
  pub All-get_some : (d : Dict K V) → IsDistinct d → All (λ x. get x.0 d ≡ some x.1) d
  unfolding get
  All-get_some [] h = tt
  All-get_some ((k, v) ∷ d) h = (
    ground (arith, e.same_iff k k),
    All-map d
        (λ x found. elim (Bool-cases (k == x.0)) [
          | inl same ↦ absurd (cc ((e.same_iff k x.0).0 same, h.0, found))
          | inr other ↦ rw other found
        ])
        (All-get_some d h.1),
  )

  pub All-put {μ} :
      (P : V → Type μ) (k : K) (v : V) (d : Dict K V)
      → P v
      → All (λ x. P x.1) d
      → All (λ x. P x.1) (put k v d)
  unfolding put
  All-put P k v [] p h = (p, tt)
  All-put P k v ((j, w) ∷ d) p h = elim (Bool-cases (j == k)) [
    | inl same ↦ rw same (p, h.1)
    | inr other ↦ rw other (h.0, All-put P k v d p h.1)
  ]
