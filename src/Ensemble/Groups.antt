-- ===== src/Ensemble/Groups.antt =====
-- The groups of entities with one span.
use tei_nlp_converter.Base.{
  Option, none, some, ◌<◌, length, length-append, append_to, All, All-put, IsDistinct,
  IsDistinct-put, refl, subst, inl, inr, Bool-cases, members, members-append_to, Bool, List, [],
  ◌∷◌, ◌++◌, Dict, get, keep, ◌==◌, if◌then◌else◌, ◌≡◌, sym, ◌∙◌, ap, arith,
}
use mathlib.Core.List.{append_assoc, append-nil}
use tei_nlp_converter.Ensemble.{
  Entity, SpanKey, span_key, span_of, all_entities, add_to_group, group_all, group_by_span,
}

module _ {ℓ} {R : Type ℓ} where
  unfoldable pub has_span : SpanKey → Entity R → Bool
  has_span k e = span_of e == k

  get-add_to_group :
      (k : SpanKey) (e : Entity R) (d : Dict SpanKey (List (Entity R)))
      → members (get k (add_to_group e d))
        ≡ members (get k d) ++ (if has_span k e then e ∷ [] else [])
  unfolding add_to_group has_span
  get-add_to_group k e d = members-append_to k (span_of e) e d

  get-group_all :
      (k : SpanKey) (es : List (Entity R)) (d : Dict SpanKey (List (Entity R)))
      → members (get k (group_all es d)) ≡ members (get k d) ++ keep (has_span k) es
  unfolding group_all keep
  get-group_all k [] d = sym (append-nil _)
  get-group_all k (e ∷ es) d =
      get-group_all k es (add_to_group e d)
      ∙ ap (λ xs. xs ++ keep (has_span k) es) (get-add_to_group k e d)
      ∙ append_assoc (members (get k d)) (if has_span k e then e ∷ [] else [])
          (keep (has_span k) es)
      ∙ ap (λ xs. members (get k d) ++ xs) (one k e es)
    where
      one :
          (k : SpanKey) (e : Entity R) (es : List (Entity R))
          → (if has_span k e then e ∷ [] else []) ++ keep (has_span k) es
            ≡ keep (has_span k) (e ∷ es)
      one k e es = ground arith

  pub members-group_by_span :
      (k : SpanKey) (model_results : List (List (Entity R)))
      → members (get k (group_by_span model_results))
        ≡ keep (has_span k) (all_entities model_results)
  unfolding group_by_span get
  members-group_by_span k model_results = get-group_all k (all_entities model_results) []

  -- Groups have different spans, and none is empty.
  pub record AreGroups (groups : Dict SpanKey (List (Entity R))) : Type ℓ where
    pub distinct : IsDistinct groups
    pub filled : All (λ x. 0 < length x.1) groups

  group_all-AreGroups :
      (es : List (Entity R)) (groups : Dict SpanKey (List (Entity R)))
      → AreGroups groups
      → AreGroups (group_all es groups)
  unfolding group_all add_to_group append_to
  group_all-AreGroups [] groups h = h
  group_all-AreGroups (e ∷ es) groups h =
      let group = members (get (span_of e) groups) ++ e ∷ [] in
      group_all-AreGroups es _ (record {
        distinct = IsDistinct-put (span_of e) group groups h.distinct;
        filled =
            All-put (λ es. 0 < length es) (span_of e) group groups
              (omega (arith, length-append (members (get (span_of e) groups)) (e ∷ []))) h.filled;
      })

  pub group_by_span-AreGroups : (rs : List (List (Entity R))) → AreGroups (group_by_span rs)
  unfolding group_by_span
  group_by_span-AreGroups rs =
      group_all-AreGroups (all_entities rs) [] (record { distinct = tt; filled = tt })

  pub filled_at :
      (k : SpanKey) (groups : Dict SpanKey (List (Entity R))) (g : List (Entity R))
      → All (λ x. 0 < length x.1) groups
      → get k groups ≡ some g
      → 0 < length g
  unfolding get
  filled_at k [] g h found = absurd (cc found)
  filled_at k ((j, es) ∷ groups) g h found = elim (Bool-cases (j == k)) [
    | inl this ↦
        let same : some es ≡ some g = rw this at found in
        subst (λ o. 0 < length (members o)) same h.0
    | inr other ↦ filled_at k groups g h.1 (rw other at found)
  ]

  -- A list, unless it is empty.
  abbrev pub nonempty : List (Entity R) → Option (List (Entity R))
  nonempty [] = none
  nonempty (e ∷ es) = some (e ∷ es)

  -- The group of a span has exactly the entities with this span, of all models, in their order; a span
  -- without entities has no group.
  pub get-group_by_span :
      (k : SpanKey) (model_results : List (List (Entity R)))
      → get k (group_by_span model_results)
        ≡ nonempty (keep (has_span k) (all_entities model_results))
  get-group_by_span k model_results =
      by_group (get k (group_by_span model_results)) (members-group_by_span k model_results)
        (λ g found.
          filled_at k (group_by_span model_results) g (group_by_span-AreGroups model_results).filled
            found)
    where
      by_group :
          (o : Option (List (Entity R))) {es : List (Entity R)}
          → members o ≡ es
          → ((g : List (Entity R)) → o ≡ some g → 0 < length g)
          → o ≡ nonempty es
      by_group none same filled = rw (← same) refl
      by_group (some []) same filled = absurd (omega (arith, filled [] refl))
      by_group (some (e ∷ es)) same filled = rw (← same) refl
