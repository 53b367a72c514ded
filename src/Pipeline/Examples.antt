-- ===== src/Pipeline/Examples.antt =====
-- Tests and instances for dynamic_pipeline.py: one model that raises, and one that finds a word; one
-- knowledge base that raises, and one that knows the word.
use tei_nlp_converter.Base.{
  ◌==◌, ==_iff, string_key, ℕ, zero, suc, ◌+◌, ◌*◌, ◌/◌, true, Option, some, List, [], ◌∷◌, map,
  Result, ok, raise, diverges, other_error, ◌≡◌, ◌≢◌,
}
use tei_nlp_converter.Ensemble.{Entity}
use tei_nlp_converter.Ensemble.Votes.{Arithmetic, of_model, Origin}
use tei_nlp_converter.Patterns.{Engine}
use tei_nlp_converter.Patterns.Extract.{Floats, extract_structured_data}
use tei_nlp_converter.Kb.Tiers.{KbEntity}
use tei_nlp_converter.Kb.Registry.{weekly, Providers, empty_catalog}
use tei_nlp_converter.Pipeline.{Models, DynamicNlpPipeline, EnrichedDocument, enriched}
use tei_nlp_converter.Pipeline.Steps.{extract_all, consolidate, process}
use tei_nlp_converter.Pipeline.Enrichment.{bare, Answers, Enrichment}
use tei_nlp_converter.Pipeline.Process.{process_returns}

abbrev thousandths : Arithmetic
thousandths = record {
  tenths = λ n. n * 100;
  of_nat = λ n. n * 1_000;
  add = λ x y. x + y;
  mul = λ x y. (x * y) / 1_000;
  div = λ x y. (x * 1_000) / y;
}

abbrev word : Entity (Origin ℕ)
word = record {
  text = "aspirin";
  type = "DRUG";
  start = 0;
  end = 7;
  confidence = 900;
  rest = record { model_id = some "biobert"; sources = []; metadata = of_model 0 };
}

-- Model 0 raises.
abbrev found_by : ℕ → Result (List (Entity (Origin ℕ)))
found_by zero = raise (other_error "out of memory")
found_by (suc d) = ok (word ∷ [])

abbrev models : Models ℕ ℕ ℕ
models = record {
  model_id = λ d. "biobert";
  extract_entities = λ d text w. (found_by d, suc w);
  cleanup = λ d w. w;
}

-- Provider 0 raises, the others know the word.
abbrev known_by : ℕ → Result (Option (KbEntity ℕ))
known_by zero = raise (other_error "timeout")
known_by (suc n) =
    ok (some (record { kb_id = "rxnorm"; text = "aspirin"; entity_type = "DRUG"; rest = n }))

abbrev providers : Providers ℕ ℕ ℕ ℕ ℕ
providers = record {
  get_kb_metadata = λ n. record {
    kb_id = "umls";
    domain = "medical";
    entity_types = [];
    update_frequency = weekly;
    trusted = true;
    rest = 0;
  };
  lookup_entity = λ n text entity_type w. (known_by n, suc w);
  get_supported_entity_types = λ n. ok [];
  stream_entities = λ n t since w. ([], w);
  health_check = λ n w. (ok true, w);
  fromisoformat = λ s. ok 0;
}

never_hangs : (d : ℕ) → found_by d ≢ diverges
never_hangs zero e = cc e
never_hangs (suc d) e = cc e

knows_or_raises : (n : ℕ) → known_by n ≢ diverges
knows_or_raises zero e = cc e
knows_or_raises (suc n) e = cc e

models_answer : Answers models providers
models_answer = record {
  models = λ d text w. never_hangs d;
  providers = λ n text entity_type w. knows_or_raises n;
}

abbrev engine : Engine ℕ
engine = record {
  compile = λ pattern flag. some 0;
  finditer = λ p text. [];
  matches = λ p text. true;
  fullmatch = λ p text. true;
  sub = λ pattern r text. text;
  upper = λ text. text;
  lower = λ text. text;
}

abbrev floats : Floats ℕ
floats = record { one = 1_000; seven_tenths = 700; times_eight_tenths = λ c. (c * 8) / 10 }

abbrev pipeline : DynamicNlpPipeline ℕ ℕ ℕ ℕ ℕ
pipeline = record {
  config = record {
    enable_pattern_matching = true;
    enable_kb_enrichment = true;
    required_kbs = [];
    optional_kbs = [];
    fallback_chain = "umls" ∷ "rxnorm" ∷ [];
  };
  active_models = 0 ∷ 1 ∷ [];
  model_weights = 500 ∷ 900 ∷ [];
  pattern_matcher = record { domain = "general"; patterns = []; compiled_patterns = [] };
  ensemble_strategy = "majority_vote";
  kb_registry = record {
    providers = ("umls", 0) ∷ ("rxnorm", 7) ∷ [];
    kb_catalog = empty_catalog;
    sync_status = [];
    sync_jobs = [];
    lookup_cache = [];
  };
  metrics = record {
    total_processed = 0;
    total_entities_extracted = 0;
    avg_latency_ms = 0;
    avg_kb_hit_rate = 0;
    avg_ensemble_agreement = 0;
    history = [];
  };
  initialized = true;
}

majority_not_weighted : pipeline.ensemble_strategy ≢ "weighted_vote"
majority_not_weighted e =
    let same : (pipeline.ensemble_strategy == "weighted_vote") ≡ true =
      (==_iff pipeline.ensemble_strategy "weighted_vote").1 e in
    cc same

process_returns_example :
    (rs : List (List (Entity (Origin ℕ)))) × (merged : List (Entity (Origin ℕ)) × ℕ)
    × (doc : EnrichedDocument ℕ) × ((extract_all models (0 ∷ 1 ∷ []) "aspirin" 0).0 ≡ ok rs)
    × (consolidate thousandths "majority_vote" rs (500 ∷ 900 ∷ []) ≡ ok merged)
    × ((process thousandths engine floats models providers "aspirin" 12 pipeline 0).0 ≡ ok doc)
    × (map bare doc.entities ≡ map enriched merged.0)
    × Enrichment thousandths providers true
        ("umls" ∷ "rxnorm" ∷ [])
        pipeline.kb_registry
        (extract_all models (0 ∷ 1 ∷ []) "aspirin" 0).1
        (map enriched merged.0)
        doc.entities
        doc.kb_hit_rate
    × (doc.structured_entities
        ≡ extract_structured_data engine floats pipeline.pattern_matcher "aspirin")
process_returns_example =
    process_returns thousandths engine floats models providers models_answer "aspirin" 12 pipeline 0
      majority_not_weighted
