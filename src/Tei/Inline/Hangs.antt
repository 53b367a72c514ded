-- ===== src/Tei/Inline/Hangs.antt =====
-- Which sentences the loop over the tokens hangs on.
use tei_nlp_converter.Base.{
  ℕ, zero, suc, ◌≤◌, List, [], ◌∷◌, length, ok, diverges, ◌>>=◌, ◌≡◌, ◌↔◌, refl, inl, inr, arith,
  Result-cases,
}
use tei_nlp_converter.Tei.Data.{Token, Sentence, list}
use tei_nlp_converter.Tei.Xml.{Element}
use tei_nlp_converter.Tei.EntityMap.{EntityMap}
use tei_nlp_converter.Tei.Inline.{TeiConverter, round, loop, process_sentence_tokens}
use tei_nlp_converter.Tei.Inline.Progress.{IsStuck, loop_diverges}
use tei_nlp_converter.Tei.Inline.Fuel.{round-Advances}
use tei_nlp_converter.Tei.Inline.Settles.{round-Settles}

module _ (c : TeiConverter) (m : EntityMap) where
  -- Finitely many rounds lead to a token at which the loop makes no progress.
  pub data Sticks : Element → List Token → Type 0 where
    at_once : (p : Element) (t : Token) (ts : List Token) → IsStuck c m t → Sticks p (t ∷ ts)
    later :
        (p p' : Element) (t : Token) (ts rest : List Token)
        → round c m p t ts ≡ ok (p', rest)
        → Sticks p' rest
        → Sticks p (t ∷ ts)

  Sticks-diverges :
      (fuel : ℕ) {p : Element} {ts : List Token} → Sticks p ts → loop fuel c m p ts ≡ diverges
  unfolding loop ◌>>=◌
  Sticks-diverges fuel (at_once p t ts stuck) = loop_diverges fuel c m p t ts stuck
  Sticks-diverges zero (later p p' t ts rest done h) = refl
  Sticks-diverges (suc fuel) (later p p' t ts rest done h) = rw done (Sticks-diverges fuel h)

  diverges_Sticks :
      (fuel : ℕ) (p : Element) (ts : List Token)
      → length ts ≤ fuel
      → loop fuel c m p ts ≡ diverges
      → Sticks p ts
  unfolding loop ◌>>=◌
  diverges_Sticks fuel p [] f h = absurd (cc h)
  diverges_Sticks zero p (t ∷ ts) f h = absurd (omega arith)
  diverges_Sticks (suc fuel) p (t ∷ ts) f h = elim (Result-cases (round c m p t ts)) [
    | inl (r, done) ↦ elim ((round-Advances c m p t ts).at r done) [
      | inl less ↦
          later p r.0 t ts r.1 done (diverges_Sticks fuel r.0 r.1 (omega arith) (rw done at h))
      | inr (stuck, all) ↦ at_once p t ts stuck
    ]
    | inr (inl (e, raised)) ↦ absurd (cc (rw raised at h))
    | inr (inr never) ↦ absurd ((round-Settles c m p t ts).settles never)
  ]

  -- The processing of a sentence with tokens hangs exactly if, after some rounds of the outer loop that
  -- raise nothing, the first token that is left starts an entity, with a label, that ends at this token or
  -- before it. In every other case it returns or raises.
  pub process_sentence_tokens_hangs_iff :
      (container : Element) (s : Sentence) (ts : List Token)
      → s.tokens ≡ list ts
      → (process_sentence_tokens c m container s ≡ diverges) ↔ Sticks container ts
  unfolding process_sentence_tokens ◌>>=◌
  process_sentence_tokens_hangs_iff container s ts tokens = rw tokens (
    (λ h. diverges_Sticks (length ts) container ts (omega arith) h),
    λ h. Sticks-diverges (length ts) h,
  )
