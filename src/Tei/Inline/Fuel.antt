-- ===== src/Tei/Inline/Fuel.antt =====
-- The number of the tokens is fuel enough for the loop over them.
use tei_nlp_converter.Base.{
  ℕ, zero, suc, ◌≤◌, Option, none, some, List, [], ◌∷◌, length, ltb, Result, ◌>>=◌, ◌≡◌, ◌≢◌, ◌⊎◌,
  inl, inr, refl, sym, ◌∙◌, arith, Bool-cases, Result-cases, Ensures, Ensures-bind, Ensures-ok,
  Ensures-item, Ensures-map, Ensures-if,
}
use tei_nlp_converter.Tei.Data.{Token, Entity}
use tei_nlp_converter.Tei.Xml.{Element}
use tei_nlp_converter.Tei.EntityMap.{EntityMap}
use tei_nlp_converter.Tei.Inline.{
  TeiConverter, add_token_element, create_entity_element, collect, starting, round_at, round, loop,
}
use tei_nlp_converter.Tei.Inline.Progress.{IsStuck, loop_diverges}

abbrev Whatever {ℓ} : {A : Type ℓ} → A → Type 0
Whatever a = Unit

Ensures-Whatever {ℓ} : {A : Type ℓ} (r : Result A) → Ensures Whatever r
Ensures-Whatever r = record { at = λ a h. tt }

collect_rest :
    (c : TeiConverter) (end : ℕ) (ts : List Token) (e : Element)
    → Ensures (λ r. length r.1 ≤ length ts) (collect c end ts e)
unfolding collect
collect_rest c end [] e = Ensures-ok _ (omega arith)
collect_rest c end (t ∷ ts) e = Ensures-bind _ _ (Ensures-item "i" t.i) λ i _.
    Ensures-if (ltb i end)
      (Ensures-bind _ _ (Ensures-Whatever (add_token_element c e t))
        λ e' _. Ensures-map (λ r x. omega arith) (collect_rest c end ts e'))
      (Ensures-ok _ (omega arith))

-- The inner loop takes the first token or leaves all tokens.
collect_first :
    (c : TeiConverter) (end i : ℕ) (t : Token) (ts : List Token) (e : Element)
    → t.i ≡ some i
    → Ensures
        (λ r. (length r.1 ≤ length ts) ⊎ ((end ≤ i) × (r.1 ≡ t ∷ ts)))
        (collect c end (t ∷ ts) e)
unfolding collect
collect_first c end i t ts e at_i = Ensures-bind _ _ (Ensures-item "i" t.i) λ j at_j.
    elim (Bool-cases (ltb j end)) [
      | inl here ↦ rw here (
          Ensures-bind _ _ (Ensures-Whatever (add_token_element c e t))
            λ e' _. Ensures-map (λ r x. inl x) (collect_rest c end ts e'))
      | inr behind ↦ rw behind (Ensures-ok _ (inr (ground arith, refl)))
    ]

create_entity_element_label :
    (c : TeiConverter) (e : Entity) → Ensures (λ x. e.label ≢ none) (create_entity_element c e)
unfolding create_entity_element
create_entity_element_label c e =
    Ensures-bind _ _ (Ensures-item "label" e.label)
      λ label at_label. Ensures-ok _ (λ h. cc (h, at_label))

-- A round takes a token, or is stuck and leaves all tokens.
abbrev pub Advances : TeiConverter → EntityMap → Token → List Token → Element × List Token → Type 0
Advances c m t ts r = (length r.1 ≤ length ts) ⊎ (IsStuck c m t × (r.1 ≡ t ∷ ts))

round_at-Advances :
    (c : TeiConverter) (m : EntityMap) (p : Element) (i : ℕ) (t : Token) (ts : List Token)
    (o : Option Entity)
    → t.i ≡ some i
    → starting m i ≡ o
    → Ensures (Advances c m t ts) (round_at c p t ts o)
unfolding round_at
round_at-Advances c m p i t ts none at_i starts =
    Ensures-bind _ _ (Ensures-Whatever (add_token_element c p t))
      λ p' _. Ensures-ok _ (inl (omega arith))
round_at-Advances c m p i t ts (some e) at_i starts =
    Ensures-bind _ _ (create_entity_element_label c e) λ elem label.
      Ensures-bind _ _ (Ensures-item "end" e.end) λ end at_end.
        Ensures-bind _ _ (collect_first c end i t ts elem at_i) λ r x. Ensures-ok _ (elim x [
          | inl less ↦ inl less
          | inr (before, all) ↦ inr (
            record {
              i = i;
              end = end;
              entity = e;
              at_i = at_i;
              starts = starts;
              at_end = at_end;
              label = label;
              before = before;
            },
            all,
          )
        ])

pub round-Advances :
    (c : TeiConverter) (m : EntityMap) (p : Element) (t : Token) (ts : List Token)
    → Ensures (Advances c m t ts) (round c m p t ts)
unfolding round
round-Advances c m p t ts =
    Ensures-bind _ _ (Ensures-item "i" t.i)
      λ i at_i. round_at-Advances c m p i t ts (starting m i) at_i refl

-- Whatever the tokens and the map are: with at least as much fuel as there are tokens, the loop gives
-- the same for any two amounts of fuel.
loop_enough :
    (fuel more : ℕ) (c : TeiConverter) (m : EntityMap) (p : Element) (ts : List Token)
    → length ts ≤ fuel
    → length ts ≤ more
    → loop fuel c m p ts ≡ loop more c m p ts
unfolding loop ◌>>=◌
loop_enough fuel more c m p [] f g = refl
loop_enough zero more c m p (t ∷ ts) f g = absurd (omega arith)
loop_enough (suc fuel) zero c m p (t ∷ ts) f g = absurd (omega arith)
loop_enough (suc fuel) (suc more) c m p (t ∷ ts) f g = elim (Result-cases (round c m p t ts)) [
  | inl (r, is_ok) ↦ rw is_ok (elim ((round-Advances c m p t ts).at r is_ok) [
    | inl less ↦ loop_enough fuel more c m r.0 r.1 (omega arith) (omega arith)
    | inr (stuck, all) ↦
        rw all (loop_diverges fuel c m r.0 t ts stuck ∙ sym (loop_diverges more c m r.0 t ts stuck))
  ])
  | inr (inl (e, raised)) ↦ rw raised
  | inr (inr never) ↦ rw never
]
