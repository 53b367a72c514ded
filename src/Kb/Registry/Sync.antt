-- ===== src/Kb/Registry/Sync.antt =====
-- The synchronization of the registry of knowledge bases.
use tei_nlp_converter.Base.{
  ℕ, ◌+◌, String, Option, none, some, List, [], ◌∷◌, Dict, get, put, string_key, if◌then◌else◌,
  length, Result, ok, raise, diverges, Exc, message,
}
use tei_nlp_converter.Kb.Tiers.{KbEntity}
use tei_nlp_converter.Kb.Registry.{
  Providers, KnowledgeBaseRegistry, SyncStatus, update_status, cache_key, given, text_of,
}

abbrev pub entity_key {ℓ} : {E : Type ℓ} → KbEntity E → String
entity_key e = cache_key e.text e.entity_type

abbrev pub in_progress : String → SyncStatus
in_progress now = record {
  status = "in_progress";
  timestamp = now;
  last_success = none;
  entities_synced = none;
  error = none;
}

-- The status of a success, with the two times that are read.
abbrev pub success : String → String → ℕ → SyncStatus
success now now' total = record {
  status = "success";
  timestamp = now';
  last_success = some now;
  entities_synced = some total;
  error = none;
}

abbrev pub failure : String → Exc → SyncStatus
failure now e = record {
  status = "failed";
  timestamp = now;
  last_success = none;
  entities_synced = none;
  error = some (message e);
}

-- `status["last_success"]`, if there is a status that has one.
abbrev pub last_success_of : Option SyncStatus → Option String
last_success_of none = none
last_success_of (some status) = status.last_success

module _ {ℓ} {E : Type ℓ} where
  unfoldable pub cache_entities :
      List (KbEntity E) → Dict String (KbEntity E) → Dict String (KbEntity E)
  cache_entities [] cache = cache
  cache_entities (e ∷ es) cache = cache_entities es (put (entity_key e) e cache)

  unfoldable pub cache_batches :
      List (List (KbEntity E)) → Dict String (KbEntity E) → ℕ → Dict String (KbEntity E) × ℕ
  unfolding cache_entities
  cache_batches [] cache total = (cache, total)
  cache_batches (batch ∷ batches) cache total =
      cache_batches batches (cache_entities batch cache) (total + length batch)

module _ {ℓ} {N R E T W : Type ℓ} (p : Providers N R E T W) where
  -- The loop over the types; a stream that raises ends, and what came before it stays.
  unfoldable pub sync_types :
      N
      → Option T
      → List String
      → Dict String (KbEntity E)
      → ℕ
      → W
      → Dict String (KbEntity E) × ℕ × W
  unfolding cache_batches
  sync_types n last_sync [] cache total w = (cache, total, w)
  sync_types n last_sync (t ∷ types) cache total w =
      let (batches, w') = p.stream_entities n t last_sync w in
      let (cache', total') = cache_batches batches cache total in
      sync_types n last_sync types cache' total' w'

  -- The time of the last success as the status says it.
  unfoldable pub last_sync_of : Option SyncStatus → Result (Option T)
  last_sync_of status =
      if given (last_success_of status)
      then elim (p.fromisoformat (text_of (last_success_of status))) [
        | ok t ↦ ok (some t)
        | raise e ↦ raise e
        | diverges ↦ diverges
      ]
      else ok none

  unfoldable pub sync_from :
      String
      → String
      → String
      → N
      → Result (List String)
      → Option T
      → KnowledgeBaseRegistry N R E
      → W
      → Result (Unit {0}) × KnowledgeBaseRegistry N R E × W
  unfolding sync_types
  sync_from now now' kb_id n (ok types) last_sync r w =
      let (cache, total, w') = sync_types n last_sync types r.lookup_cache 0 w in
      (ok tt, update_status kb_id (success now now' total) (record r { lookup_cache = cache }), w')
  sync_from now now' kb_id n (raise e) last_sync r w = (raise e, r, w)
  sync_from now now' kb_id n diverges last_sync r w = (diverges, r, w)

  unfoldable pub sync_provider :
      String
      → String
      → String
      → N
      → Result (Option T)
      → KnowledgeBaseRegistry N R E
      → W
      → Result (Unit {0}) × KnowledgeBaseRegistry N R E × W
  unfolding sync_from
  sync_provider now now' kb_id n (ok last_sync) r w =
      sync_from now now' kb_id n (p.get_supported_entity_types n) last_sync r w
  sync_provider now now' kb_id n (raise e) r w = (raise e, r, w)
  sync_provider now now' kb_id n diverges r w = (diverges, r, w)

  -- `_perform_sync`, with the three times that it reads.
  unfoldable pub perform_sync :
      String
      → String
      → String
      → String
      → KnowledgeBaseRegistry N R E
      → W
      → Result (Unit {0}) × KnowledgeBaseRegistry N R E × W
  unfolding update_status last_sync_of sync_provider
  perform_sync start now now' kb_id r w =
      let started = update_status kb_id (in_progress start) r in
      elim (get kb_id started.providers) [
        | none ↦ (ok tt, started, w)
        | some n ↦
            sync_provider now now' kb_id n (last_sync_of (get kb_id started.sync_status)) started w
      ]

  -- One round of `_sync_kb_periodically`: how many seconds it sleeps after it.
  unfoldable pub sync_round :
      ℕ
      → String
      → String
      → String
      → String
      → String
      → KnowledgeBaseRegistry N R E
      → W
      → Result ℕ × KnowledgeBaseRegistry N R E × W
  unfolding perform_sync
  sync_round interval start now now' failed kb_id r w =
      let (done, r', w') = perform_sync start now now' kb_id r w in
      elim done [
        | ok u ↦ (ok interval, r', w')
        | raise e ↦ (ok 3600, update_status kb_id (failure failed e) r', w')
        | diverges ↦ (diverges, r', w')
      ]
