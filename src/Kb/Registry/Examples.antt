-- ===== src/Kb/Registry/Examples.antt =====
-- Tests and instances for the registry of knowledge bases: one provider of drugs.
use tei_nlp_converter.Base.{
  suc, ℕ, String, Bool, true, false, Option, none, some, List, [], ◌∷◌, keep, get, ok, raise,
  other_error, ◌≡◌, refl, string_key, Any, here,
}
use tei_nlp_converter.Kb.Tiers.{KbEntity}
use tei_nlp_converter.Kb.Registry.{
  KbMetadata, weekly, Providers, KnowledgeBaseRegistry, empty_catalog, query, lookup_with_fallback,
}
use tei_nlp_converter.Kb.Registry.Sync.{perform_sync, entity_key}
use tei_nlp_converter.Kb.Registry.Query.{add_all, of_domain, of_type, query-add_all}
use tei_nlp_converter.Kb.Registry.Full.{restreamed, perform_sync_full}
use tei_nlp_converter.Kb.Registry.Lookup.{streamed, joined, lookup-perform_sync}

abbrev metadata : String → String → Bool → KbMetadata ℕ
metadata kb_id domain trusted = record {
  kb_id = kb_id;
  domain = domain;
  entity_types = "DRUG" ∷ [];
  update_frequency = weekly;
  trusted = trusted;
  rest = 0;
}

-- One of them is added again.
abbrev added : List (KbMetadata ℕ)
added =
    metadata "umls" "medical" true
    ∷ metadata "usc" "legal" true
    ∷ metadata "umls" "medical" false
    ∷ []

query-add_all_example :
    (query (some "medical") none false (add_all added empty_catalog)
      ≡ keep (of_domain "medical") added)
    × (query none (some "medical") false (add_all added empty_catalog)
        ≡ keep (of_type "medical") added)
query-add_all_example =
    query-add_all added "medical" none false ((refl, tt), ((refl, tt), ((refl, tt), tt)))
      (λ e. cc e)

abbrev drug : String → ℕ → KbEntity ℕ
drug text n = record { kb_id = "umls"; text = text; entity_type = "DRUG"; rest = n }

-- The world counts the calls.
abbrev providers : Providers ℕ ℕ ℕ ℕ ℕ
providers = record {
  get_kb_metadata = λ n. metadata "umls" "medical" true;
  lookup_entity = λ n text entity_type w. (raise (other_error "timeout"), suc w);
  get_supported_entity_types = λ n. ok ("DRUG" ∷ []);
  stream_entities = λ n t since w.
      ((drug "aspirin" 1 ∷ drug "ibuprofen" 2 ∷ []) ∷ (drug "aspirin" 3 ∷ []) ∷ [], suc w);
  health_check = λ n w. (ok true, suc w);
  fromisoformat = λ s. ok 0;
}

abbrev registry : KnowledgeBaseRegistry ℕ ℕ ℕ
registry = record {
  providers = ("umls", 7) ∷ [];
  kb_catalog = empty_catalog;
  sync_status = [];
  sync_jobs = [];
  lookup_cache = [];
}

-- Providers that stream nothing if a time is given.
abbrev incremental : ℕ → String → Option ℕ → ℕ → List (List (KbEntity ℕ)) × ℕ
incremental n t none w = providers.stream_entities n t none w
incremental n t (some since) w = ([], suc w)

perform_sync_full_example :
    perform_sync (restreamed providers incremental) "1" "2" "3" "umls" registry 0
    ≡ perform_sync providers "1" "2" "3" "umls" registry 0
perform_sync_full_example =
    perform_sync_full providers incremental "1" "2" "3" "umls" registry 0
      (record { on_all = λ n t w. refl })

lookup-perform_sync_example :
    let synced = (perform_sync providers "1" "2" "3" "umls" registry 0).1 in
    (found : KbEntity ℕ) × (lookup_with_fallback providers "aspirin" [] (some "DRUG") synced 5
      ≡ (ok (some found), synced, 5))
    × (entity_key found ≡ entity_key (drug "aspirin" 1))
    × Any (λ x. found ≡ x) (streamed providers 7 ("DRUG" ∷ []) 0)
unfolding streamed joined get
lookup-perform_sync_example =
    lookup-perform_sync providers "1" "2" "3" "umls" 7 ("DRUG" ∷ []) registry 0 5 (drug "aspirin" 1)
      [] refl refl (here refl) (λ e. cc e)
