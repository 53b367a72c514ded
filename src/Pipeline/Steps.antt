-- ===== src/Pipeline/Steps.antt =====
-- The steps of `process`.
use tei_nlp_converter.Base.{
  ℕ, suc, String, Bool, none, some, List, [], ◌∷◌, string_key, if◌then◌else◌, length, map, Result,
  ok, raise, diverges,
}
use tei_nlp_converter.Ensemble.{Entity}
use tei_nlp_converter.Ensemble.Votes.{Arithmetic, Origin}
use tei_nlp_converter.Ensemble.Merge.{merge, calculate_agreement_score}
use tei_nlp_converter.Patterns.{Engine, StructuredEntity}
use tei_nlp_converter.Patterns.Extract.{Floats, extract_structured_data}
use tei_nlp_converter.Kb.Registry.{Providers, KnowledgeBaseRegistry, lookup_with_fallback}
use tei_nlp_converter.Pipeline.{
  EnrichedEntity, EnrichedDocument, record_metrics, Models, DynamicNlpPipeline, enriched,
}

module _ {ℓ} {D M W : Type ℓ} where
  -- The results of the models; one that raises has found nothing.
  unfoldable pub extract_all :
      Models D M W → List D → String → W → Result (List (List (Entity (Origin M)))) × W
  extract_all s [] text w = (ok [], w)
  extract_all s (d ∷ models) text w =
      let (found, w') = s.extract_entities d text w in
      let (rest, w'') = extract_all s models text w' in
      elim found [
        | ok es ↦
            ((elim rest [ ok rs ↦ ok (es ∷ rs) | raise e ↦ raise e | diverges ↦ diverges ]), w'')
        | raise e ↦
            ((elim rest [ ok rs ↦ ok ([] ∷ rs) | raise e' ↦ raise e' | diverges ↦ diverges ]), w'')
        | diverges ↦ (diverges, w')
      ]

module _ {ℓ} {N R E T W : Type ℓ} where
  -- The loop of `_enrich_with_kbs`: the entities, and how many were found.
  unfoldable pub enrich_all :
      Providers N R E T W
      → List String
      → List (EnrichedEntity E)
      → KnowledgeBaseRegistry N R E
      → W
      → Result (List (EnrichedEntity E) × ℕ) × KnowledgeBaseRegistry N R E × W
  enrich_all p chain [] r w = (ok ([], 0), r, w)
  enrich_all p chain (e ∷ es) r w =
      let (found, r', w') = lookup_with_fallback p e.text chain (some e.entity_type) r w in
      let (rest, r'', w'') = enrich_all p chain es r' w' in
      elim found [
        | ok none ↦ (
          (elim rest [ ok x ↦ ok (e ∷ x.0, x.1) | raise x ↦ raise x | diverges ↦ diverges ]),
          r'',
          w'',
        )
        | ok (some k) ↦ (
          (elim rest [
            | ok x ↦ ok (record e { kb_entity = some k } ∷ x.0, suc x.1)
            | raise x ↦ raise x
            | diverges ↦ diverges
          ]),
          r'',
          w'',
        )
        | raise x ↦ (raise x, r', w')
        | diverges ↦ (diverges, r', w')
      ]

  -- `_enrich_with_kbs`, with the hit rate.
  unfoldable pub enrich_with_kbs :
      Arithmetic
      → Providers N R E T W
      → List String
      → List (EnrichedEntity E)
      → KnowledgeBaseRegistry N R E
      → W
      → Result (List (EnrichedEntity E) × ℕ) × KnowledgeBaseRegistry N R E × W
  unfolding enrich_all
  enrich_with_kbs a p [] es r w = (ok (es, a.of_nat 0), r, w)
  enrich_with_kbs a p (k ∷ chain) es r w =
      let (done, r', w') = enrich_all p (k ∷ chain) es r w in
      (
        (elim done [
          | ok x ↦ ok (x.0, a.div (a.of_nat x.1) (a.of_nat (length es)))
          | raise e ↦ raise e
          | diverges ↦ diverges
        ]),
        r',
        w',
      )

  -- Step 5, if it is enabled and there are entities.
  unfoldable pub enrich_if :
      Bool
      → Arithmetic
      → Providers N R E T W
      → List String
      → List (EnrichedEntity E)
      → KnowledgeBaseRegistry N R E
      → W
      → Result (List (EnrichedEntity E) × ℕ) × KnowledgeBaseRegistry N R E × W
  unfolding enrich_with_kbs
  enrich_if enabled a p chain [] r w = (ok ([], a.of_nat 0), r, w)
  enrich_if enabled a p chain (e ∷ es) r w =
      if enabled then enrich_with_kbs a p chain (e ∷ es) r w else (ok (e ∷ es, a.of_nat 0), r, w)

-- Step 3: the ensemble, and its agreement. Without results there are no entities.
unfoldable pub consolidate {ℓ} :
    {M : Type ℓ}
    → Arithmetic
    → String
    → List (List (Entity (Origin M)))
    → List ℕ
    → Result (List (Entity (Origin M)) × ℕ)
consolidate a strategy [] weights = ok ([], a.of_nat 1)
consolidate a strategy (es ∷ rs) weights = elim (merge a strategy (es ∷ rs) (some weights)) [
  | ok merged ↦ ok (merged, calculate_agreement_score a (es ∷ rs))
  | raise e ↦ raise e
  | diverges ↦ diverges
]

module _ {ℓ} {D M P N R E T W : Type ℓ} (a : Arithmetic) (engine : Engine P) (floats : Floats ℕ)
    (s : Models D M W) (p : Providers N R E T W) where
  -- The document is built and recorded.
  unfoldable pub finish :
      String
      → ℕ
      → List (StructuredEntity ℕ)
      → ℕ
      → Result (List (EnrichedEntity E) × ℕ)
      → DynamicNlpPipeline D P N R E
      → W
      → Result (EnrichedDocument E) × DynamicNlpPipeline D P N R E × W
  unfolding record_metrics
  finish text elapsed structured agreement (ok (entities, hit_rate)) l w =
      let doc : EnrichedDocument E = record {
        text = text;
        entities = entities;
        structured_entities = structured;
        processing_time_ms = elapsed;
        models_used = map s.model_id l.active_models;
        kb_hit_rate = hit_rate;
        ensemble_agreement = agreement;
      } in
      (ok doc, record l { metrics = record_metrics a doc l.metrics }, w)
  finish text elapsed structured agreement (raise e) l w = (raise e, l, w)
  finish text elapsed structured agreement diverges l w = (diverges, l, w)

  unfoldable pub after_merge :
      String
      → ℕ
      → List (StructuredEntity ℕ)
      → Result (List (Entity (Origin M)) × ℕ)
      → DynamicNlpPipeline D P N R E
      → W
      → Result (EnrichedDocument E) × DynamicNlpPipeline D P N R E × W
  unfolding enrich_if finish
  after_merge text elapsed structured (ok (merged, agreement)) l w =
      let (done, r, w') =
        enrich_if l.config.enable_kb_enrichment a p l.config.fallback_chain (map enriched merged)
          l.kb_registry w in
      finish text elapsed structured agreement done (record l { kb_registry = r }) w'
  after_merge text elapsed structured (raise e) l w = (raise e, l, w)
  after_merge text elapsed structured diverges l w = (diverges, l, w)

  unfoldable pub after_extraction :
      String
      → ℕ
      → Result (List (List (Entity (Origin M))))
      → DynamicNlpPipeline D P N R E
      → W
      → Result (EnrichedDocument E) × DynamicNlpPipeline D P N R E × W
  unfolding consolidate after_merge
  after_extraction text elapsed (ok results) l w =
      let structured =
        if l.config.enable_pattern_matching
        then extract_structured_data engine floats l.pattern_matcher text
        else [] in
      after_merge text elapsed structured
        (consolidate a l.ensemble_strategy results l.model_weights) l w
  after_extraction text elapsed (raise e) l w = (raise e, l, w)
  after_extraction text elapsed diverges l w = (diverges, l, w)

  -- `process` of a pipeline that is initialized, which takes `elapsed` milliseconds.
  unfoldable pub process :
      String
      → ℕ
      → DynamicNlpPipeline D P N R E
      → W
      → Result (EnrichedDocument E) × DynamicNlpPipeline D P N R E × W
  unfolding extract_all after_extraction
  process text elapsed l w =
      let (results, w') = extract_all s l.active_models text w in
      after_extraction text elapsed results l w'
