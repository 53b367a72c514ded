-- ===== src/Base/Groups.antt =====
-- `defaultdict(list)`: the lists that elements are appended to under keys.
use mathlib.Core.Path.{◌≡◌, refl, sym}
use mathlib.Core.Bool.{Bool, true, false}
use mathlib.Core.List.{List, [], ◌∷◌, ◌++◌, append-nil}
use mathlib.Core.Option.{Option, none, some}
use mathlib.Core.Logic.{inl, inr}
use tei_nlp_converter.Base.Tests.{if◌then◌else◌, Key, ◌==◌, Bool-cases}
use tei_nlp_converter.Base.Dicts.{Dict, get, put, get-put}

-- `d.get(key, [])`: a missing group has no members.
abbrev pub members {ℓ} : {A : Type ℓ} → Option (List A) → List A
members none = []
members (some xs) = xs

-- One more at the head of a list, or not.
pub if-append {ℓ} :
    {A : Type ℓ} (b : Bool) (x : A) (xs : List A)
    → (if b then x ∷ [] else []) ++ xs ≡ (if b then x ∷ xs else xs)
if-append true x xs = refl
if-append false x xs = refl

module _ {κ ℓ} {K : Type κ} {A : Type ℓ} ⦃e : Key K⦄ where
  -- `d[key].append(x)`
  unfoldable pub append_to : K → A → Dict K (List A) → Dict K (List A)
  append_to k x d = put k (members (get k d) ++ x ∷ []) d

  pub members-append_to :
      (j k : K) (x : A) (d : Dict K (List A))
      → members (get j (append_to k x d)) ≡ members (get j d) ++ (if k == j then x ∷ [] else [])
  unfolding append_to
  members-append_to j k x d = elim (Bool-cases (k == j)) [
    | inl same ↦
        let here = (e.same_iff k j).0 same in
        rw (append_to, get-put k j (members (get k d) ++ x ∷ []) d, same) (rw here refl)
    | inr other ↦
        rw (append_to, get-put k j (members (get k d) ++ x ∷ []) d, other)
          (sym (append-nil (members (get j d))))
  ]
