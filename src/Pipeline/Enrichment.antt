-- ===== src/Pipeline/Enrichment.antt =====
-- What the enrichment of the entities gives, one lookup after the other.
use tei_nlp_converter.Base.{
  ℕ, suc, String, Bool, true, false, Option, none, some, List, [], ◌∷◌, string_key, length, map,
  get, Dict, ok, diverges, Result-cases, Option-cases, ◌≡◌, ◌≢◌, refl, ap, inl, inr,
}
use tei_nlp_converter.Ensemble.{Entity}
use tei_nlp_converter.Ensemble.Votes.{Arithmetic, Origin}
use tei_nlp_converter.Kb.Tiers.{KbEntity}
use tei_nlp_converter.Kb.Registry.{
  Providers, KnowledgeBaseRegistry, lookup_with_fallback, ask_chain, cache_key, or_any,
}
use tei_nlp_converter.Pipeline.{EnrichedEntity, Models, enriched}
use tei_nlp_converter.Pipeline.Steps.{enrich_all, enrich_with_kbs, enrich_if}

-- The entity without what a knowledge base says of it.
abbrev pub bare {ℓ} : {E : Type ℓ} → EnrichedEntity E → EnrichedEntity E
bare e = record e { kb_entity = none }

-- No model and no provider hangs.
pub record Answers {ℓ} {D M N R E T W : Type ℓ} (s : Models D M W) (p : Providers N R E T W)
    : Type ℓ where
  pub models : (d : D) (text : String) (w : W) → (s.extract_entities d text w).0 ≢ diverges
  pub providers :
      (n : N) (text : String) (entity_type : Option String) (w : W)
      → (p.lookup_entity n text entity_type w).0 ≢ diverges

pub bare-enriched {ℓ} :
    {M E : Type ℓ} (es : List (Entity (Origin M)))
    → map bare (map enriched es) ≡ map (enriched {E = E}) es
bare-enriched [] = refl
bare-enriched (e ∷ es) = ap (λ xs. enriched e ∷ xs) (bare-enriched es)

module _ {ℓ} {D M N R E T W : Type ℓ} (s : Models D M W) (p : Providers N R E T W)
    (answers : Answers s p) where
  ask_chain_ok :
      (providers : Dict String N) (text : String) (entity_type : Option String)
      (chain : List String) (cache : Dict String (KbEntity E)) (w : W)
      → (o : Option (KbEntity E)) × ((ask_chain p providers text entity_type chain cache w).0
          ≡ ok o)
  unfolding ask_chain
  ask_chain_ok providers text entity_type [] cache w = (none, refl)
  ask_chain_ok providers text entity_type (k ∷ chain) cache w =
      elim (Option-cases (get k providers)) [
        | inl unknown ↦
            let (o, e) = ask_chain_ok providers text entity_type chain cache w in
            (o, rw (ask_chain, unknown) e)
        | inr (n, known) ↦
            let (answer, w') = p.lookup_entity n text entity_type w in
            elim (Result-cases answer) [
              | inl (none, e) ↦
                  let (o, more) = ask_chain_ok providers text entity_type chain cache w' in
                  (o, rw (ask_chain, known, e) more)
              | inl (some found, e) ↦ (some found, rw (ask_chain, known, e) refl)
              | inr (inl (x, e)) ↦
                  let (o, more) = ask_chain_ok providers text entity_type chain cache w' in
                  (o, rw (ask_chain, known, e) more)
              | inr (inr never) ↦ absurd (answers.providers n text entity_type w never)
            ]
      ]

  lookup_ok :
      (text : String) (chain : List String) (entity_type : Option String)
      (r : KnowledgeBaseRegistry N R E) (w : W)
      → (o : Option (KbEntity E)) × ((lookup_with_fallback p text chain entity_type r w).0 ≡ ok o)
  unfolding lookup_with_fallback
  lookup_ok text chain entity_type r w =
      elim (Option-cases (get (cache_key text (or_any entity_type)) r.lookup_cache)) [
        | inl missing ↦
            let (o, e) = ask_chain_ok r.providers text entity_type chain r.lookup_cache w in
            (o, rw (lookup_with_fallback, missing) e)
        | inr (found, cached) ↦ (some found, rw (lookup_with_fallback, cached) refl)
      ]

module _ {ℓ} {N R E T W : Type ℓ} (p : Providers N R E T W) (chain : List String) where
  -- The entities that were looked up in a row, each lookup from the registry and the world that the one
  -- before left: each has what was found for its text and type, or is as it was. The number is that of
  -- the hits.
  pub data Enriched
      : KnowledgeBaseRegistry N R E
        → W
        → List (EnrichedEntity E)
        → List (EnrichedEntity E)
        → ℕ
        → Type ℓ where
    finished : {r : KnowledgeBaseRegistry N R E} {w : W} → Enriched r w [] [] 0
    hit :
        {r : KnowledgeBaseRegistry N R E} {w : W} (e : EnrichedEntity E) (k : KbEntity E)
        {es es' : List (EnrichedEntity E)} {hits : ℕ}
        → (lookup_with_fallback p e.text chain (some e.entity_type) r w).0 ≡ ok (some k)
        → Enriched
            (lookup_with_fallback p e.text chain (some e.entity_type) r w).1
            (lookup_with_fallback p e.text chain (some e.entity_type) r w).2
            es
            es'
            hits
        → Enriched r w (e ∷ es) (record e { kb_entity = some k } ∷ es') (suc hits)
    miss :
        {r : KnowledgeBaseRegistry N R E} {w : W} (e : EnrichedEntity E)
        {es es' : List (EnrichedEntity E)} {hits : ℕ}
        → (lookup_with_fallback p e.text chain (some e.entity_type) r w).0 ≡ ok none
        → Enriched
            (lookup_with_fallback p e.text chain (some e.entity_type) r w).1
            (lookup_with_fallback p e.text chain (some e.entity_type) r w).2
            es
            es'
            hits
        → Enriched r w (e ∷ es) (e ∷ es') hits

  bare-Enriched :
      {r : KnowledgeBaseRegistry N R E} {w : W} {es es' : List (EnrichedEntity E)} {hits : ℕ}
      → Enriched r w es es' hits
      → map bare es' ≡ map bare es
  bare-Enriched finished = refl
  bare-Enriched (hit e k found h) = ap (λ ys. bare e ∷ ys) (bare-Enriched h)
  bare-Enriched (miss e missing h) = ap (λ ys. bare e ∷ ys) (bare-Enriched h)

-- The entities and the hit rate: the lookups and their share of hits if the enrichment is enabled, the
-- chain names a knowledge base and there are entities; else the same entities and 0.
abbrev pub Enrichment {ℓ} :
    {N R E T W : Type ℓ}
    → Arithmetic
    → Providers N R E T W
    → Bool
    → List String
    → KnowledgeBaseRegistry N R E
    → W
    → List (EnrichedEntity E)
    → List (EnrichedEntity E)
    → ℕ
    → Type ℓ
Enrichment a p false chain r w es es' rate = (es' ≡ es) × (rate ≡ a.of_nat 0)
Enrichment a p true [] r w es es' rate = (es' ≡ es) × (rate ≡ a.of_nat 0)
Enrichment a p true (k ∷ chain) r w [] es' rate = (es' ≡ []) × (rate ≡ a.of_nat 0)
Enrichment a p true (k ∷ chain) r w (e ∷ es) es' rate =
    (hits : ℕ) × Enriched p (k ∷ chain) r w (e ∷ es) es' hits
    × (rate ≡ a.div (a.of_nat hits) (a.of_nat (length (e ∷ es))))

pub bare-Enrichment {ℓ} :
    {N R E T W : Type ℓ} (a : Arithmetic) (p : Providers N R E T W) (enabled : Bool)
    (chain : List String) (r : KnowledgeBaseRegistry N R E) (w : W)
    (es es' : List (EnrichedEntity E)) (rate : ℕ)
    → Enrichment a p enabled chain r w es es' rate
    → map bare es' ≡ map bare es
bare-Enrichment a p false chain r w es es' rate h = ap (map bare) h.0
bare-Enrichment a p true [] r w es es' rate h = ap (map bare) h.0
bare-Enrichment a p true (k ∷ chain) r w [] es' rate h = ap (map bare) h.0
bare-Enrichment a p true (k ∷ chain) r w (e ∷ es) es' rate (hits, h, _) =
    bare-Enriched p (k ∷ chain) h

module _ {ℓ} {D M N R E T W : Type ℓ} (s : Models D M W) (p : Providers N R E T W)
    (answers : Answers s p) where
  enrich_all-Enriched :
      (chain : List String) (es : List (EnrichedEntity E)) (r : KnowledgeBaseRegistry N R E) (w : W)
      → (x : List (EnrichedEntity E) × ℕ) × ((enrich_all p chain es r w).0 ≡ ok x)
        × Enriched p chain r w es x.0 x.1
  unfolding enrich_all
  enrich_all-Enriched chain [] r w = (([], 0), refl, finished)
  enrich_all-Enriched chain (e ∷ es) r w =
      let (found, r', w') = lookup_with_fallback p e.text chain (some e.entity_type) r w in
      let (x, rest, h) = enrich_all-Enriched chain es r' w' in
      let (o, answer) = lookup_ok s p answers e.text chain (some e.entity_type) r w in
      by_answer o answer x rest h
    where
      by_answer :
          (o : Option (KbEntity E))
          → (lookup_with_fallback p e.text chain (some e.entity_type) r w).0 ≡ ok o
          → (x : List (EnrichedEntity E) × ℕ)
          → (enrich_all p chain es
              (lookup_with_fallback p e.text chain (some e.entity_type) r w).1
              (lookup_with_fallback p e.text chain (some e.entity_type) r w).2).0
            ≡ ok x
          → Enriched p chain
              (lookup_with_fallback p e.text chain (some e.entity_type) r w).1
              (lookup_with_fallback p e.text chain (some e.entity_type) r w).2
              es
              x.0
              x.1
          → (y : List (EnrichedEntity E) × ℕ) × ((enrich_all p chain (e ∷ es) r w).0 ≡ ok y)
            × Enriched p chain r w (e ∷ es) y.0 y.1
      by_answer none missing x rest h =
          ((e ∷ x.0, x.1), rw (enrich_all, missing, rest) refl, miss e missing h)
      by_answer (some k) known x rest h = (
        (record e { kb_entity = some k } ∷ x.0, suc x.1),
        rw (enrich_all, known, rest) refl,
        hit e k known h,
      )

  pub enrich_if-Enrichment :
      (enabled : Bool) (a : Arithmetic) (chain : List String) (es : List (EnrichedEntity E))
      (r : KnowledgeBaseRegistry N R E) (w : W)
      → (x : List (EnrichedEntity E) × ℕ) × ((enrich_if enabled a p chain es r w).0 ≡ ok x)
        × Enrichment a p enabled chain r w es x.0 x.1
  unfolding enrich_if enrich_with_kbs
  enrich_if-Enrichment false a chain [] r w = (([], a.of_nat 0), refl, (refl, refl))
  enrich_if-Enrichment true a [] [] r w = (([], a.of_nat 0), refl, (refl, refl))
  enrich_if-Enrichment true a (k ∷ chain) [] r w = (([], a.of_nat 0), refl, (refl, refl))
  enrich_if-Enrichment false a chain (e ∷ es) r w = ((e ∷ es, a.of_nat 0), refl, (refl, refl))
  enrich_if-Enrichment true a [] (e ∷ es) r w = ((e ∷ es, a.of_nat 0), refl, (refl, refl))
  enrich_if-Enrichment true a (k ∷ chain) (e ∷ es) r w =
      let (x, done, h) = enrich_all-Enriched (k ∷ chain) (e ∷ es) r w in
      (
        (x.0, a.div (a.of_nat x.1) (a.of_nat (length (e ∷ es)))),
        rw (enrich_with_kbs, done) refl,
        (x.1, h, refl),
      )
