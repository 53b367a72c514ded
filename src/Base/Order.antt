-- ===== src/Base/Order.antt =====
-- The order of a dictionary: its end is where the newest key goes.
use Prim.Native.Nat.{ℕ, ◌+◌, ◌≤◌, ◌<◌}
use mathlib.Core.Path.{◌≡◌, refl}
use mathlib.Core.Logic.{◌≢◌, inl, inr}
use mathlib.Core.Bool.{false}
use mathlib.Core.List.{[], ◌∷◌, ◌++◌}
use mathlib.Core.Option.{none, some}
use native.Mathlib.Omega.{arith}
use tei_nlp_converter.Base.Tests.{if◌then◌else◌, Key, ◌==◌, Bool-cases}
use tei_nlp_converter.Base.Lists.{length, drop, length-append}
use tei_nlp_converter.Base.Dicts.{Dict, get, put, remove, IsDistinct, get-append}

module _ {κ ℓ} {K : Type κ} {V : Type ℓ} ⦃e : Key K⦄ where
  -- `d.move_to_end(k)`, where `k` is there
  unfoldable pub move_to_end : K → Dict K V → Dict K V
  unfolding get remove
  move_to_end k d = elim (get k d) [ none ↦ d | some v ↦ remove k d ++ (k, v) ∷ [] ]

  -- How many keys stand behind a key.
  pub behind : K → Dict K V → ℕ
  behind k [] = 0
  behind k ((j, v) ∷ d) = if j == k then length d else behind k d

  pub put-eq-append : (k : K) (v : V) (d : Dict K V) → get k d ≡ none → put k v d ≡ d ++ (k, v) ∷ []
  unfolding get put
  put-eq-append k v [] h = refl
  put-eq-append k v ((j, w) ∷ d) h = ground (arith, put-eq-append k v d)

  pub put-move_to_end :
      (k : K) (v w : V) (d : Dict K V)
      → get k d ≡ none
      → put k v (d ++ (k, w) ∷ []) ≡ d ++ (k, v) ∷ []
  unfolding get put
  put-move_to_end k v w [] h = ground (arith, e.same_iff k k)
  put-move_to_end k v w ((j, u) ∷ d) h = ground (arith, put-move_to_end k v w d)

  pub get-remove_same : (k : K) (d : Dict K V) → IsDistinct d → get k (remove k d) ≡ none
  unfolding get remove
  get-remove_same k [] h = refl
  get-remove_same k ((j, v) ∷ d) h = ground (arith, e.same_iff j k, get-remove_same k d)

  pub get-remove-none : (k j : K) (d : Dict K V) → get k d ≡ none → get k (remove j d) ≡ none
  unfolding get remove
  get-remove-none k j [] h = refl
  get-remove-none k j ((i, v) ∷ d) h = ground (arith, get-remove-none k j d)

  pub IsDistinct-remove : (k : K) (d : Dict K V) → IsDistinct d → IsDistinct (remove k d)
  unfolding remove
  IsDistinct-remove k [] h = tt
  IsDistinct-remove k ((j, v) ∷ d) h = elim (Bool-cases (j == k)) [
    | inl here ↦ rw here h.1
    | inr other ↦ rw other (get-remove-none j k d h.0, IsDistinct-remove k d h.1)
  ]

  pub IsDistinct-snoc :
      (k : K) (v : V) (d : Dict K V) → get k d ≡ none → IsDistinct d → IsDistinct (d ++ (k, v) ∷ [])
  unfolding get
  IsDistinct-snoc k v [] n h = (refl, tt)
  IsDistinct-snoc k v ((j, w) ∷ d) n h = (
    ground (arith, get-append j d ((k, v) ∷ []) h.0, e.same_iff j k, e.same_iff k j),
    IsDistinct-snoc k v d (ground arith) h.1,
  )

  pub length-remove : (k : K) (d : Dict K V) → length (remove k d) ≤ length d
  unfolding remove
  length-remove k [] = omega arith
  length-remove k ((j, v) ∷ d) = ground (arith, length-remove k d)

  pub length-remove_some :
      (k : K) (d : Dict K V) → get k d ≢ none → length (remove k d) + 1 ≡ length d
  unfolding remove get
  length-remove_some k [] h = absurd (h refl)
  length-remove_some k ((j, v) ∷ d) h = ground (arith, length-remove_some k d)

  pub behind-remove :
      (k j : K) (d : Dict K V) → (j == k) ≡ false → behind k (remove j d) ≤ behind k d
  unfolding remove behind
  behind-remove k j [] h = omega arith
  behind-remove k j ((i, v) ∷ d) h = ground (
    arith,
    e.same_iff j k,
    e.same_iff i j,
    e.same_iff i k,
    behind-remove k j d,
    length-remove j d,
  )

  pub behind-snoc :
      (k j : K) (v : V) (d : Dict K V)
      → (j == k) ≡ false
      → behind k (d ++ (j, v) ∷ []) ≤ behind k d + 1
  unfolding behind
  behind-snoc k j v [] h = ground arith
  behind-snoc k j v ((i, w) ∷ d) h =
      ground (arith, behind-snoc k j v d, length-append d ((j, v) ∷ []))

  pub behind_last :
      (k : K) (v : V) (d : Dict K V) → get k d ≡ none → behind k (d ++ (k, v) ∷ []) ≡ 0
  unfolding behind get
  behind_last k v [] h = ground (arith, e.same_iff k k)
  behind_last k v ((i, w) ∷ d) h = ground (arith, behind_last k v d)

  -- The first key is not one behind which fewer keys stand than behind the first.
  pub behind_oldest :
      (k : K) (d : Dict K V)
      → behind k d + 1 < length d
      → (get k (drop 1 d) ≡ get k d) × (behind k (drop 1 d) ≡ behind k d)
  unfolding behind get
  behind_oldest k [] h = absurd (omega (arith, h))
  behind_oldest k ((j, v) ∷ d) h = ground arith

  pub get-snoc_other :
      (k j : K) (v : V) (d : Dict K V) → (j == k) ≡ false → get k (d ++ (j, v) ∷ []) ≡ get k d
  unfolding get
  get-snoc_other k j v [] h = ground arith
  get-snoc_other k j v ((i, w) ∷ d) h = ground (arith, get-snoc_other k j v d)

  pub get_last : (k : K) (v : V) (d : Dict K V) → get k d ≡ none → get k (d ++ (k, v) ∷ []) ≡ some v
  unfolding get
  get_last k v [] h = ground (arith, e.same_iff k k)
  get_last k v ((i, w) ∷ d) h = ground (arith, get_last k v d)
