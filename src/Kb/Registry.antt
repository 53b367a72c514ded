-- ===== src/Kb/Registry.antt =====
-- domain_nlp/knowledge_bases/registry.py: the catalog of knowledge bases, and the registry of their
-- providers. A method is one step: what other coroutines do while it awaits a provider is not modelled.
pub mod Sync
pub mod Query
pub mod Full
pub mod Lookup
mod Examples
use Prim.Native.String.{◌++◌}
use tei_nlp_converter.Base.{
  ℕ, String, Bool, true, false, Option, none, some, List, [], ◌∷◌, append_to, members, Dict, get,
  put, remove, has_key, ◌==◌, string_key, if◌then◌else◌, keep, map, Result, ok, raise, diverges,
}
use tei_nlp_converter.Kb.Tiers.{KbEntity}

pub data SyncFrequency : Type 0 where
  hourly : SyncFrequency
  daily : SyncFrequency
  weekly : SyncFrequency
  monthly : SyncFrequency
  quarterly : SyncFrequency
  annual : SyncFrequency

-- What the registry reads of a `KBMetadata`, and the rest. The entity types are a set, in the order of
-- its iteration.
pub record KbMetadata {ℓ} (R : Type ℓ) : Type ℓ where
  pub kb_id : String
  pub domain : String
  pub entity_types : List String
  pub update_frequency : SyncFrequency
  pub trusted : Bool
  pub rest : R

pub record KbCatalog {ℓ} (R : Type ℓ) : Type ℓ where
  pub kbs : Dict String (KbMetadata R)
  pub by_domain : Dict String (List (KbMetadata R))
  pub by_entity_type : Dict String (List (KbMetadata R))

-- `if x:` of an optional text.
abbrev pub given : Option String → Bool
given none = false
given (some s) = if s == "" then false else true

abbrev pub text_of : Option String → String
text_of none = ""
text_of (some s) = s

module _ {ℓ} {R : Type ℓ} where
  abbrev pub empty_catalog : KbCatalog R
  empty_catalog = record { kbs = []; by_domain = []; by_entity_type = [] }

  unfoldable pub add_types :
      List String
      → KbMetadata R
      → Dict String (List (KbMetadata R))
      → Dict String (List (KbMetadata R))
  unfolding append_to
  add_types [] m d = d
  add_types (t ∷ types) m d = add_types types m (append_to t m d)

  -- `KBCatalog.add`
  unfoldable pub add : KbMetadata R → KbCatalog R → KbCatalog R
  unfolding add_types
  add m c = record {
    kbs = put m.kb_id m c.kbs;
    by_domain = append_to m.domain m c.by_domain;
    by_entity_type = add_types m.entity_types m c.by_entity_type;
  }

  unfoldable pub candidates : Option String → Option String → KbCatalog R → List (KbMetadata R)
  candidates domain entity_type c =
      if given domain
      then members (get (text_of domain) c.by_domain)
      else (if given entity_type
          then members (get (text_of entity_type) c.by_entity_type)
          else map (λ x. x.1) c.kbs)

  unfoldable pub query : Option String → Option String → Bool → KbCatalog R → List (KbMetadata R)
  unfolding candidates
  query domain entity_type trusted_only c =
      let found = candidates domain entity_type c in
      if trusted_only then keep (λ m. m.trusted) found else found

-- A status of a synchronization. `last_success` and `entities_synced` stand only in one of a success,
-- `error` only in one of a failure.
pub record SyncStatus : Type 0 where
  pub status : String
  pub timestamp : String
  pub last_success : Option String
  pub entities_synced : Option ℕ
  pub error : Option String

-- The providers `N` as they answer, with the world `W` they live in; `T` are points in time. Of a stream
-- stand the batches that come before it ends or raises.
pub record Providers {ℓ} (N R E T W : Type ℓ) : Type ℓ where
  pub get_kb_metadata : N → KbMetadata R
  pub lookup_entity : N → String → Option String → W → Result (Option (KbEntity E)) × W
  pub get_supported_entity_types : N → Result (List String)
  pub stream_entities : N → String → Option T → W → List (List (KbEntity E)) × W
  pub health_check : N → W → Result Bool × W
  pub fromisoformat : String → Result T

-- Of a job of synchronization stands the interval of its rounds.
pub record KnowledgeBaseRegistry {ℓ} (N R E : Type ℓ) : Type ℓ where
  pub providers : Dict String N
  pub kb_catalog : KbCatalog R
  pub sync_status : Dict String SyncStatus
  pub sync_jobs : Dict String ℕ
  pub lookup_cache : Dict String (KbEntity E)

-- `_frequency_to_seconds`
abbrev pub frequency_to_seconds : SyncFrequency → ℕ
frequency_to_seconds hourly = 3_600
frequency_to_seconds daily = 86_400
frequency_to_seconds weekly = 604_800
frequency_to_seconds monthly = 2_592_000
frequency_to_seconds quarterly = 7_776_000
frequency_to_seconds annual = 31_536_000

-- `entity_type or 'any'`
abbrev pub or_any : Option String → String
or_any none = "any"
or_any (some t) = if t == "" then "any" else t

abbrev pub cache_key : String → String → String
cache_key text entity_type = text ++ (":" ++ entity_type)

module _ {ℓ} {N R E T W : Type ℓ} where
  pub register_provider :
      Providers N R E T W → String → N → KnowledgeBaseRegistry N R E → KnowledgeBaseRegistry N R E
  unfolding add
  register_provider p kb_id provider r = record r {
    providers = put kb_id provider r.providers;
    kb_catalog = add (p.get_kb_metadata provider) r.kb_catalog;
  }

  pub start_sync :
      Providers N R E T W → String → KnowledgeBaseRegistry N R E → KnowledgeBaseRegistry N R E
  start_sync p kb_id r = if has_key kb_id r.sync_jobs then r else elim (get kb_id r.providers) [
    | none ↦ r
    | some n ↦ record r {
      sync_jobs =
          put kb_id (frequency_to_seconds (p.get_kb_metadata n).update_frequency) r.sync_jobs;
    }
  ]

  -- The loop of `lookup_with_fallback` over the chain; what a provider raises is caught.
  unfoldable pub ask_chain :
      Providers N R E T W
      → Dict String N
      → String
      → Option String
      → List String
      → Dict String (KbEntity E)
      → W
      → Result (Option (KbEntity E)) × Dict String (KbEntity E) × W
  ask_chain p providers text entity_type [] cache w = (ok none, cache, w)
  ask_chain p providers text entity_type (kb_id ∷ chain) cache w = elim (get kb_id providers) [
    | none ↦ ask_chain p providers text entity_type chain cache w
    | some n ↦
        let (answer, w') = p.lookup_entity n text entity_type w in
        elim answer [
          | ok (some e) ↦ (ok (some e), put (cache_key text (or_any entity_type)) e cache, w')
          | ok none ↦ ask_chain p providers text entity_type chain cache w'
          | raise e ↦ ask_chain p providers text entity_type chain cache w'
          | diverges ↦ (diverges, cache, w')
        ]
  ]

  unfoldable pub lookup_with_fallback :
      Providers N R E T W
      → String
      → List String
      → Option String
      → KnowledgeBaseRegistry N R E
      → W
      → Result (Option (KbEntity E)) × KnowledgeBaseRegistry N R E × W
  unfolding ask_chain
  lookup_with_fallback p text chain entity_type r w =
      elim (get (cache_key text (or_any entity_type)) r.lookup_cache) [
        | some e ↦ (ok (some e), r, w)
        | none ↦
            let (answer, cache, w') =
              ask_chain p r.providers text entity_type chain r.lookup_cache w in
            (answer, record r { lookup_cache = cache }, w')
      ]

  -- `health_check_all`: a check that raises counts as failed.
  pub health_check_all : Providers N R E T W → Dict String N → W → Result (Dict String Bool) × W
  health_check_all p [] w = (ok [], w)
  health_check_all p ((kb_id, n) ∷ providers) w =
      let (healthy, w') = p.health_check n w in
      let (others, w'') = health_check_all p providers w' in
      elim healthy [
        | ok b ↦ (
          (elim others [ ok d ↦ ok ((kb_id, b) ∷ d) | raise e ↦ raise e | diverges ↦ diverges ]),
          w'',
        )
        | raise e ↦ (
          (elim others [
            | ok d ↦ ok ((kb_id, false) ∷ d)
            | raise e' ↦ raise e'
            | diverges ↦ diverges
          ]),
          w'',
        )
        | diverges ↦ (diverges, w')
      ]

module _ {ℓ} {N R E : Type ℓ} where
  pub init : KnowledgeBaseRegistry N R E
  init = record {
    providers = [];
    kb_catalog = empty_catalog;
    sync_status = [];
    sync_jobs = [];
    lookup_cache = [];
  }

  -- The job is cancelled.
  pub unregister_provider : String → KnowledgeBaseRegistry N R E → KnowledgeBaseRegistry N R E
  unregister_provider kb_id r =
      if has_key kb_id r.providers
      then record r { providers = remove kb_id r.providers; sync_jobs = remove kb_id r.sync_jobs }
      else r

  -- `KBSyncStatus.update`
  unfoldable pub update_status :
      String → SyncStatus → KnowledgeBaseRegistry N R E → KnowledgeBaseRegistry N R E
  update_status kb_id status r = record r { sync_status = put kb_id status r.sync_status }

  pub clear_cache : KnowledgeBaseRegistry N R E → KnowledgeBaseRegistry N R E
  clear_cache r = record r { lookup_cache = [] }

  pub shutdown : KnowledgeBaseRegistry N R E → KnowledgeBaseRegistry N R E
  shutdown r = record r { sync_jobs = [] }
