-- ===== src/Pipeline/Process.antt =====
-- An initialized pipeline gives a document, whatever its models and knowledge bases raise.
use tei_nlp_converter.Base.{
  ℕ, String, some, List, [], ◌∷◌, string_key, if◌then◌else◌, map, ok, Result-cases, ◌≡◌, ◌≢◌, refl,
  ◌∙◌, inl, inr,
}
use tei_nlp_converter.Ensemble.{Entity}
use tei_nlp_converter.Ensemble.Votes.{Arithmetic, Origin}
use tei_nlp_converter.Ensemble.Merge.Total.{merge_returns}
use tei_nlp_converter.Ensemble.Merge.{calculate_agreement_score}
use tei_nlp_converter.Patterns.{Engine}
use tei_nlp_converter.Patterns.Extract.{Floats, extract_structured_data}
use tei_nlp_converter.Kb.Registry.{Providers}
use tei_nlp_converter.Pipeline.{EnrichedDocument, Models, DynamicNlpPipeline, enriched}
use tei_nlp_converter.Pipeline.Enrichment.{
  bare, Answers, Enrichment, bare-Enrichment, bare-enriched, enrich_if-Enrichment,
}
use tei_nlp_converter.Pipeline.Steps.{
  extract_all, consolidate, finish, after_merge, after_extraction, process,
}

module _ {ℓ} {D M N R E T W : Type ℓ} (s : Models D M W) (p : Providers N R E T W)
    (answers : Answers s p) where
  extract_all_ok :
      (models : List D) (text : String) (w : W)
      → (rs : List (List (Entity (Origin M)))) × ((extract_all s models text w).0 ≡ ok rs)
  unfolding extract_all
  extract_all_ok [] text w = ([], refl)
  extract_all_ok (d ∷ models) text w =
      let (found, w') = s.extract_entities d text w in
      let (rs, rest) = extract_all_ok models text w' in
      elim (Result-cases found) [
        | inl (es, e) ↦ (es ∷ rs, rw (extract_all, e, rest) refl)
        | inr (inl (x, e)) ↦ ([] ∷ rs, rw (extract_all, e, rest) refl)
        | inr (inr never) ↦ absurd (answers.models d text w never)
      ]

consolidate_ok {ℓ} :
    {M : Type ℓ} (a : Arithmetic) (strategy : String) (rs : List (List (Entity (Origin M))))
    (weights : List ℕ)
    → strategy ≢ "weighted_vote"
    → (x : List (Entity (Origin M)) × ℕ) × (consolidate a strategy rs weights ≡ ok x)
unfolding consolidate
consolidate_ok a strategy [] weights h = (_, refl)
consolidate_ok a strategy (es ∷ rs) weights h =
    let (merged, e) = merge_returns a strategy (es ∷ rs) (some weights) h in
    ((merged, calculate_agreement_score a (es ∷ rs)), rw (consolidate, e) refl)

module _ {ℓ} {D M P N R E T W : Type ℓ} (a : Arithmetic) (engine : Engine P) (floats : Floats ℕ)
    (s : Models D M W) (p : Providers N R E T W) (answers : Answers s p) where
  -- If the strategy is not the weighted vote and no model and no provider hangs, `process` of an initialized
  -- pipeline returns a document, also where models and providers raise. Its entities are, in order, the
  -- merged ones of what the models extracted. If the enrichment is enabled, the fallback chain is not empty
  -- and there are entities, each of them has the entity that `lookup_with_fallback` finds for its text and
  -- type, or none where it finds none, the lookups being made one after the other from the registry and the
  -- world after the extraction, and the hit rate is the number of the hits divided by that of the entities;
  -- else no entity has one and the hit rate is 0. The structured entities are those of the pattern matcher,
  -- or none where the matching is off.
  pub process_returns :
      (text : String) (elapsed : ℕ) (l : DynamicNlpPipeline D P N R E) (w : W)
      → l.ensemble_strategy ≢ "weighted_vote"
      → (rs : List (List (Entity (Origin M)))) × (merged : List (Entity (Origin M)) × ℕ)
        × (doc : EnrichedDocument E) × ((extract_all s l.active_models text w).0 ≡ ok rs)
        × (consolidate a l.ensemble_strategy rs l.model_weights ≡ ok merged)
        × ((process a engine floats s p text elapsed l w).0 ≡ ok doc)
        × (map bare doc.entities ≡ map enriched merged.0)
        × Enrichment a p l.config.enable_kb_enrichment l.config.fallback_chain l.kb_registry
            (extract_all s l.active_models text w).1
            (map enriched merged.0)
            doc.entities
            doc.kb_hit_rate
        × (doc.structured_entities ≡ (
            if l.config.enable_pattern_matching
            then extract_structured_data engine floats l.pattern_matcher text
            else []))
  unfolding process after_extraction after_merge finish
  process_returns text elapsed l w unweighted =
      let w' = (extract_all s l.active_models text w).1 in
      let (rs, extracted) = extract_all_ok s p answers l.active_models text w in
      let (merged, consolidated) =
        consolidate_ok a l.ensemble_strategy rs l.model_weights unweighted in
      let (x, done, h) =
        enrich_if-Enrichment s p answers l.config.enable_kb_enrichment a l.config.fallback_chain
          (map enriched merged.0) l.kb_registry w' in
      let doc : EnrichedDocument E = record {
        text = text;
        entities = x.0;
        structured_entities =
            if l.config.enable_pattern_matching
            then extract_structured_data engine floats l.pattern_matcher text
            else [];
        processing_time_ms = elapsed;
        models_used = map s.model_id l.active_models;
        kb_hit_rate = x.1;
        ensemble_agreement = merged.1;
      } in
      (
        rs,
        merged,
        doc,
        extracted,
        consolidated,
        rw (process, extracted, consolidated, done) refl,
        bare-Enrichment a p l.config.enable_kb_enrichment l.config.fallback_chain l.kb_registry w'
              (map enriched merged.0) x.0 x.1 h
            ∙ bare-enriched merged.0,
        h,
        refl,
      )
