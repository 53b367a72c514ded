-- ===== src/Pipeline.antt =====
-- domain_nlp/pipeline/dynamic_pipeline.py: a text goes through the models, the patterns, the ensemble and
-- the knowledge bases. What runs in parallel is taken in the order of its list.
pub mod Steps
pub mod Enrichment
pub mod Process
mod Examples
use tei_nlp_converter.Base.{
  ℕ, zero, suc, ◌+◌, ◌-◌, String, Bool, true, false, Option, none, some, List, [], ◌∷◌, ◌++◌, ◌==◌,
  string_key, leb, ltb, nat_beq, if◌then◌else◌, length, drop, map, has_key, Result, ok, raise,
  diverges,
}
use tei_nlp_converter.Ensemble.{Entity}
use tei_nlp_converter.Ensemble.Votes.{Arithmetic, Origin, average}
use tei_nlp_converter.Ensemble.Merge.{merge, calculate_agreement_score}
use tei_nlp_converter.Patterns.{Engine, StructuredEntity, DomainPatternMatcher}
use tei_nlp_converter.Patterns.Extract.{Floats, extract_structured_data}
use tei_nlp_converter.Kb.Tiers.{KbEntity}
use tei_nlp_converter.Kb.Registry.{
  Providers, KnowledgeBaseRegistry, start_sync, shutdown, lookup_with_fallback,
}

-- What the code reads of a `PipelineConfig`.
pub record PipelineConfig : Type 0 where
  pub enable_pattern_matching : Bool
  pub enable_kb_enrichment : Bool
  pub required_kbs : List String
  pub optional_kbs : List String
  pub fallback_chain : List String

pub record EnrichedEntity {ℓ} (E : Type ℓ) : Type ℓ where
  pub text : String
  pub entity_type : String
  pub start : ℕ
  pub end : ℕ
  pub confidence : ℕ
  pub model_id : Option String
  pub kb_entity : Option (KbEntity E)
  pub sources : List String

pub record EnrichedDocument {ℓ} (E : Type ℓ) : Type ℓ where
  pub text : String
  pub entities : List (EnrichedEntity E)
  pub structured_entities : List (StructuredEntity ℕ)
  pub processing_time_ms : ℕ
  pub models_used : List String
  pub kb_hit_rate : ℕ
  pub ensemble_agreement : ℕ

-- An entry of the history.
pub record Sample : Type 0 where
  pub latency_ms : ℕ
  pub entity_count : ℕ
  pub kb_hit_rate : ℕ
  pub ensemble_agreement : ℕ

pub record PerformanceMetrics : Type 0 where
  pub total_processed : ℕ
  pub total_entities_extracted : ℕ
  pub avg_latency_ms : ℕ
  pub avg_kb_hit_rate : ℕ
  pub avg_ensemble_agreement : ℕ
  pub history : List Sample

-- The models `D` as they answer, on the world `W`.
pub record Models {ℓ} (D M W : Type ℓ) : Type ℓ where
  pub model_id : D → String
  pub extract_entities : D → String → W → Result (List (Entity (Origin M))) × W
  pub cleanup : D → W → W

pub record DynamicNlpPipeline {ℓ} (D P N R E : Type ℓ) : Type ℓ where
  pub config : PipelineConfig
  pub active_models : List D
  pub model_weights : List ℕ
  pub pattern_matcher : DomainPatternMatcher P
  pub ensemble_strategy : String
  pub kb_registry : KnowledgeBaseRegistry N R E
  pub metrics : PerformanceMetrics
  pub initialized : Bool

-- `xs[-n:]`
abbrev pub last {ℓ} : {A : Type ℓ} → ℕ → List A → List A
last n xs = drop (length xs - n) xs

abbrev pub entity_count {ℓ} : {E : Type ℓ} → EnrichedDocument E → ℕ
entity_count doc = length doc.entities + length doc.structured_entities

-- `PerformanceMetrics.record`
unfoldable pub record_metrics {ℓ} :
    {E : Type ℓ} → Arithmetic → EnrichedDocument E → PerformanceMetrics → PerformanceMetrics
record_metrics a doc m =
    let n = suc m.total_processed in
    let rolled : ℕ → ℕ → ℕ = λ avg x. a.div (a.add (a.mul (a.of_nat (n - 1)) avg) x) (a.of_nat n) in
    let sample : Sample = record {
      latency_ms = doc.processing_time_ms;
      entity_count = entity_count doc;
      kb_hit_rate = doc.kb_hit_rate;
      ensemble_agreement = doc.ensemble_agreement;
    } in
    record {
      total_processed = n;
      total_entities_extracted = m.total_entities_extracted + entity_count doc;
      avg_latency_ms = rolled m.avg_latency_ms doc.processing_time_ms;
      avg_kb_hit_rate = rolled m.avg_kb_hit_rate doc.kb_hit_rate;
      avg_ensemble_agreement = rolled m.avg_ensemble_agreement doc.ensemble_agreement;
      history = last 1_000 (m.history ++ sample ∷ []);
    }

-- `should_optimize`
pub should_optimize : Arithmetic → PerformanceMetrics → Bool
should_optimize a m =
    let recent = last 10 m.history in
    if ltb m.total_processed 100
    then false
    else ltb (a.mul m.avg_latency_ms (a.tenths 15)) (average a (map (λ s. s.latency_ms) recent))

-- `EnrichedEntity(…)` of a merged entity.
abbrev pub enriched {ℓ} : {E M : Type ℓ} → Entity (Origin M) → EnrichedEntity E
enriched e = record {
  text = e.text;
  entity_type = e.type;
  start = e.start;
  end = e.end;
  confidence = e.confidence;
  model_id = e.rest.model_id;
  kb_entity = none;
  sources = e.rest.sources;
}

-- `_initialize_kbs`, of the required and of the optional ones: jobs for those that there are.
pub initialize_kbs {ℓ} :
    {N R E T W : Type ℓ}
    → Providers N R E T W
    → List String
    → KnowledgeBaseRegistry N R E
    → KnowledgeBaseRegistry N R E
initialize_kbs p [] r = r
initialize_kbs p (k ∷ kbs) r =
    initialize_kbs p kbs (if has_key k r.providers then start_sync p k r else r)

module _ {ℓ} {D P N R E : Type ℓ} where
  pub add_model : D → ℕ → DynamicNlpPipeline D P N R E → DynamicNlpPipeline D P N R E
  add_model model weight l = record l {
    active_models = l.active_models ++ model ∷ [];
    model_weights = l.model_weights ++ weight ∷ [];
  }

  pub update_ensemble_strategy :
      String → DynamicNlpPipeline D P N R E → DynamicNlpPipeline D P N R E
  update_ensemble_strategy strategy l = record l { ensemble_strategy = strategy }

-- `del xs[i]`
abbrev pub delete_at {ℓ} : {A : Type ℓ} → ℕ → List A → List A
delete_at i [] = []
delete_at zero (x ∷ xs) = xs
delete_at (suc i) (x ∷ xs) = x ∷ delete_at i xs

module _ {ℓ} {D M W : Type ℓ} (s : Models D M W) where
  -- The first model of the id, from the index `i` on.
  position_of : String → ℕ → List D → Option (ℕ × D)
  position_of model_id i [] = none
  position_of model_id i (d ∷ models) =
      let rest = position_of model_id (suc i) models in
      if s.model_id d == model_id then some (i, d) else rest

  clean_all : List D → W → W
  clean_all [] w = w
  clean_all (d ∷ models) w = clean_all models (s.cleanup d w)

module _ {ℓ} {D M P N R E W : Type ℓ} (s : Models D M W) where
  -- The weight is deleted at the place of the model.
  pub remove_model : String → DynamicNlpPipeline D P N R E → W → DynamicNlpPipeline D P N R E × W
  unfolding position_of
  remove_model model_id l w = elim (position_of s model_id 0 l.active_models) [
    | none ↦ (l, w)
    | some x ↦ (
      record l {
        active_models = delete_at x.0 l.active_models;
        model_weights = delete_at x.0 l.model_weights;
      },
      s.cleanup x.1 w,
    )
  ]

  -- `shutdown`
  pub stop : DynamicNlpPipeline D P N R E → W → DynamicNlpPipeline D P N R E × W
  unfolding clean_all
  stop l w = (
    record l {
      active_models = [];
      model_weights = [];
      kb_registry = shutdown l.kb_registry;
      initialized = false;
    },
    clean_all s l.active_models w,
  )
