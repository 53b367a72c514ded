-- ===== src/Kb/Tiers.antt =====
-- `MultiTierCacheManager` of domain_nlp/knowledge_bases/cache.py: the memory, Redis and the database.
-- A method is taken as one step: what another coroutine does while it awaits Redis is not modelled.
pub mod Calls
pub mod Reads
use Prim.Native.String.{◌++◌}
use tei_nlp_converter.Base.{
  ℕ, ◌+◌, String, Bool, true, false, Option, none, some, List, [], ◌∷◌, ◌==◌, string_key,
  if◌then◌else◌, take, Result, ok, raise, diverges, catch, ◌>>=◌, strip,
}
use tei_nlp_converter.Kb.Lru.{LruCache}
use tei_nlp_converter.Kb.Lru as Lru

-- A `KBEntity`: what the caches read of it, and the rest.
pub record KbEntity {ℓ} (R : Type ℓ) : Type ℓ where
  pub kb_id : String
  pub text : String
  pub entity_type : String
  pub rest : R

-- The client of Redis on the state `S` of its server, `str.lower`, the digest, and JSON for entities
-- (`json.dumps(entity.to_dict())`, `KBEntity.from_dict(json.loads(data))`).
pub record Services {ℓ} (R S : Type ℓ) : Type ℓ where
  pub lower : String → String
  pub hexdigest : String → String
  pub get : String → S → Result (Option String)
  pub setex : String → ℕ → String → S → Result (Unit {0}) × S
  pub execute : List (String × ℕ × String) → S → Result (Unit {0}) × S
  pub dumps : KbEntity R → Result String
  pub loads : String → Result (KbEntity R)

-- `redis` is the server, if there is a client; `db` whether there is a session.
pub record MultiTierCacheManager {ℓ} (R S : Type ℓ) : Type ℓ where
  pub memory_cache : LruCache (KbEntity R)
  pub redis : Option S
  pub redis_ttl : ℕ
  pub db : Bool
  pub l1_hits : ℕ
  pub l2_hits : ℕ
  pub l3_hits : ℕ
  pub total_lookups : ℕ

pub data Call {ℓ} (R : Type ℓ) : Type ℓ where
  get_call : ℕ → ℕ → String → String → String → Call R
  set_call : ℕ → KbEntity R → Call R
  bulk_insert_call : (ℕ → ℕ) → List (KbEntity R) → Call R
  clear_all_call : Call R

-- `except Exception`: the call may have changed the server all the same.
swallow {ℓ} : {S : Type ℓ} → Result (Unit {0}) × S → Result S
swallow (ok u, r) = ok r
swallow (raise e, r) = ok r
swallow (diverges, r) = diverges

-- `if self.redis: …`
pub with_redis {ℓ} : {S : Type ℓ} → (S → Result S) → Option S → Result (Option S)
with_redis f none = ok none
with_redis f (some r) = do r' ← f r; ok (some r')

-- The placeholder of the source.
get_from_db {ℓ} : {R : Type ℓ} → String → String → String → Option (KbEntity R)
get_from_db kb_id entity_text entity_type = none

module _ {ℓ} {R S : Type ℓ} where
  pub init : ℕ → ℕ → Option S → Bool → MultiTierCacheManager R S
  init memory_size memory_ttl redis_client db_session = record {
    memory_cache = Lru.init memory_size memory_ttl;
    redis = redis_client;
    redis_ttl = 3600;
    db = db_session;
    l1_hits = 0;
    l2_hits = 0;
    l3_hits = 0;
    total_lookups = 0;
  }

  pub make_key : Services R S → String → String → String → String
  make_key s kb_id entity_text entity_type =
      s.hexdigest (kb_id ++ (":" ++ (entity_type ++ (":" ++ s.lower (strip entity_text)))))

  pub key_of : Services R S → KbEntity R → String
  unfolding make_key
  key_of s e = make_key s e.kb_id e.text e.entity_type

  -- `if data:`, then the entity
  decode : Services R S → Option String → Result (Option (KbEntity R))
  decode s none = ok none
  decode s (some payload) =
      if payload == "" then ok none else (s.loads payload >>= λ e. ok (some e))

  -- Whatever fails, nothing is found.
  get_from_redis : Services R S → String → S → Result (Option (KbEntity R))
  unfolding decode
  get_from_redis s key r = catch (s.get key r >>= λ payload. decode s payload) (λ e. ok none)

  pub set_in_redis : Services R S → ℕ → String → KbEntity R → S → Result S
  unfolding swallow
  set_in_redis s ttl key e r = elim (s.dumps e) [
    | ok payload ↦ swallow (s.setex key ttl payload r)
    | raise error ↦ ok r
    | diverges ↦ diverges
  ]

  -- The commands of the pipeline.
  commands : Services R S → ℕ → List (KbEntity R) → Result (List (String × ℕ × String))
  unfolding key_of
  commands s ttl [] = ok []
  commands s ttl (e ∷ es) = do
    payload ← s.dumps e
    rest ← commands s ttl es
    ok ((key_of s e, ttl, payload) ∷ rest)

  bulk_set_redis : Services R S → ℕ → List (KbEntity R) → S → Result S
  unfolding commands swallow
  bulk_set_redis s ttl es r = elim (commands s ttl es) [
    | ok rows ↦ swallow (s.execute rows r)
    | raise error ↦ ok r
    | diverges ↦ diverges
  ]

  promote : ℕ → String → KbEntity R → MultiTierCacheManager R S → Result (MultiTierCacheManager R S)
  promote now key e m = do
    memory ← Lru.set now key e m.memory_cache
    ok (record m { memory_cache = memory })

  -- The third tier of `get`.
  look_in_db :
      Services R S
      → ℕ
      → String
      → Bool
      → Option (KbEntity R)
      → MultiTierCacheManager R S
      → Result (Option (KbEntity R) × MultiTierCacheManager R S)
  unfolding promote with_redis set_in_redis
  look_in_db s now key true (some e) m = do
    m' ← promote now key e (record m { l3_hits = m.l3_hits + 1 })
    redis ← with_redis (set_in_redis s m.redis_ttl key e) m.redis
    ok (some e, record m' { redis = redis })
  look_in_db s now key _ _ m = ok (none, m)

  from_redis : Services R S → String → Option S → Result (Option (KbEntity R))
  unfolding get_from_redis
  from_redis s key none = ok none
  from_redis s key (some r) = get_from_redis s key r

  -- The second tier, with what Redis has found.
  look_in_redis :
      Services R S
      → ℕ
      → String
      → Option (KbEntity R)
      → Option (KbEntity R)
      → MultiTierCacheManager R S
      → Result (Option (KbEntity R) × MultiTierCacheManager R S)
  unfolding look_in_db
  look_in_redis s now key none stored m = look_in_db s now key m.db stored m
  look_in_redis s now key (some e) stored m = do
    m' ← promote now key e (record m { l2_hits = m.l2_hits + 1 })
    ok (some e, m')

  -- The first tier, with what the memory has found: an entity is true in a test.
  look_in_memory :
      Services R S
      → ℕ
      → String
      → Option (KbEntity R)
      → Option (KbEntity R)
      → MultiTierCacheManager R S
      → Result (Option (KbEntity R) × MultiTierCacheManager R S)
  unfolding from_redis look_in_redis
  look_in_memory s now key (some e) stored m = ok (some e, record m { l1_hits = m.l1_hits + 1 })
  look_in_memory s now key none stored m = do
    found ← from_redis s key m.redis
    look_in_redis s now key found stored m

  -- `now` is the time of the lookup in the memory, `now'` that of a promotion.
  unfoldable pub get :
      Services R S
      → ℕ
      → ℕ
      → String
      → String
      → String
      → MultiTierCacheManager R S
      → Result (Option (KbEntity R) × MultiTierCacheManager R S)
  unfolding look_in_memory get_from_db
  get s now now' kb_id entity_text entity_type m =
      let key = make_key s kb_id entity_text entity_type in
      let (found, memory) = Lru.get now key m.memory_cache in
      look_in_memory s now' key found (get_from_db kb_id entity_text entity_type)
        (record m { memory_cache = memory; total_lookups = m.total_lookups + 1 })

  -- The database is a placeholder in the source.
  unfoldable pub set :
      Services R S → ℕ → KbEntity R → MultiTierCacheManager R S → Result (MultiTierCacheManager R S)
  unfolding promote with_redis set_in_redis
  set s now e m = do
    m' ← promote now (key_of s e) e m
    redis ← with_redis (set_in_redis s m.redis_ttl (key_of s e) e) m.redis
    ok (record m' { redis = redis })

  -- Each `set` reads the clock: `clock i` is the time of the one that follows `i` others.
  insert_all :
      Services R S
      → (ℕ → ℕ)
      → List (KbEntity R)
      → MultiTierCacheManager R S
      → Result (MultiTierCacheManager R S)
  unfolding promote
  insert_all s clock [] m = ok m
  insert_all s clock (e ∷ es) m = do
    m' ← promote (clock 0) (key_of s e) e m
    insert_all s (λ i. clock (i + 1)) es m'

  unfoldable pub bulk_insert :
      Services R S
      → (ℕ → ℕ)
      → List (KbEntity R)
      → MultiTierCacheManager R S
      → Result (MultiTierCacheManager R S)
  unfolding insert_all with_redis bulk_set_redis
  bulk_insert s clock [] m = ok m
  bulk_insert s clock (e ∷ es) m = do
    m' ← insert_all s clock (take 1000 (e ∷ es)) m
    redis ← with_redis (bulk_set_redis s m.redis_ttl (e ∷ es)) m.redis
    ok (record m' { redis = redis })

  pub clear_all : MultiTierCacheManager R S → MultiTierCacheManager R S
  clear_all m = record m { memory_cache = Lru.clear m.memory_cache }

  -- The lifetime is not handed on.
  pub create_shadow : MultiTierCacheManager R S → MultiTierCacheManager R S
  create_shadow m = init m.memory_cache.maxsize 3600 m.redis m.db

  -- The manager, and the memory object that it had. `one_object` is whether that is the shadow's memory
  -- already, as after an earlier swap to the same shadow: then what is cleared is the memory in use.
  pub swap_to_shadow :
      Bool
      → MultiTierCacheManager R S
      → MultiTierCacheManager R S
      → MultiTierCacheManager R S × LruCache (KbEntity R)
  unfolding Lru.clear
  swap_to_shadow one_object shadow m =
      let old_cache = Lru.clear m.memory_cache in
      (record m { memory_cache = if one_object then old_cache else shadow.memory_cache }, old_cache)

  -- A call of the manager; what `get` answers is not kept.
  pub step : Services R S → Call R → MultiTierCacheManager R S → Result (MultiTierCacheManager R S)
  unfolding get set bulk_insert clear_all
  step s (get_call now now' kb_id text type) m = do
    (found, m') ← get s now now' kb_id text type m
    ok m'
  step s (set_call now e) m = set s now e m
  step s (bulk_insert_call clock es) m = bulk_insert s clock es m
  step s clear_all_call m = ok (clear_all m)

  pub run :
      Services R S → List (Call R) → MultiTierCacheManager R S → Result (MultiTierCacheManager R S)
  run s [] m = ok m
  run s (call ∷ calls) m = do m' ← step s call m; run s calls m'
