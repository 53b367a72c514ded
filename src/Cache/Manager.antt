-- ===== src/Cache/Manager.antt =====
-- `CacheManager` of cache_manager.py. Every method gives the manager back, since what it has changed
-- stays changed when it raises. Times are microseconds.
pub mod Writes
pub mod Frame
pub mod Bound
pub mod Fallback
pub mod Wrap
use Prim.Native.String.{◌++◌}
use tei_nlp_converter.Base.{
  ℕ, zero, suc, ◌+◌, ◌*◌, ◌/◌, max, String, Bool, true, false, Option, none, some, List, [], ◌∷◌,
  Dict, get as lookup, has_key, put, remove, string_key, ◌==◌, leb, ltb, nat_beq, if◌then◌else◌,
  length, take, map, sort, replace, contains, Result, ok, raise, Exc, type_error, diverges,
}
use tei_nlp_converter.Cache.Redis.{
  Reply, done, connection_error, redis_error, Redis, Pickle, Loaded, loaded, corrupt, load_raises,
  Dumped, dumped, unpicklable, dump_raises, Ended, returned, exhausted, failed, no_attempt,
  with_retry,
}

pub record Item {ℓ} (V : Type ℓ) : Type ℓ where
  pub value : V
  pub expires : ℕ
  pub last_accessed : ℕ

-- `redis_client` is the server that the client is connected to.
pub record CacheManager {ℓ} (V S : Type ℓ) : Type ℓ where
  pub ttl : ℕ
  pub max_memory_cache : ℕ
  pub max_retries : ℕ
  pub memory_cache : Dict String (Item V)
  pub redis_client : Option S
  pub redis_available : Bool
  pub last_redis_check : ℕ

-- What the calls of `datetime.utcnow()` in a method return, in the order of the code: in the health
-- check before and after the ping, then in the memory cache.
pub record Times : Type 0 where
  pub checked : ℕ
  pub pinged : ℕ
  pub used : ℕ
  pub used_again : ℕ

abbrev pub seconds : ℕ → ℕ
seconds n = n * 1_000_000

abbrev pub no_exception : Exc
no_exception = type_error "exceptions must derive from BaseException"

-- What the tier of Redis does in `get`.
pub data Found {ℓ} (V : Type ℓ) : Type ℓ where
  hit : V → Found V
  miss : Found V
  breaks : Exc → Found V

module _ {ℓ} {V S : Type ℓ} where
  -- The end of `__init__`, where the client is connected or not.
  unfoldable pub init : ℕ → ℕ → ℕ → ℕ → Option S → CacheManager V S
  init now ttl max_memory_cache max_retries client = record {
    ttl = ttl;
    max_memory_cache = max_memory_cache;
    max_retries = max_retries;
    memory_cache = [];
    redis_client = client;
    redis_available = elim client [ none ↦ false | some s ↦ true ];
    last_redis_check = now;
  }

  -- After the ping of the health check.
  unfoldable pub pinged : ℕ → Reply (Unit {0}) → S → CacheManager V S → Bool × CacheManager V S
  pinged now (done u) s m =
      (true, record m { redis_client = some s; redis_available = true; last_redis_check = now })
  pinged now connection_error s m =
      (false, record m { redis_client = some s; redis_available = false; last_redis_check = now })
  pinged now redis_error s m =
      (false, record m { redis_client = some s; redis_available = false; last_redis_check = now })

  -- `_check_redis_health` of a client
  unfoldable pub check_redis_health :
      Redis S → Times → S → CacheManager V S → Bool × CacheManager V S
  unfolding pinged
  check_redis_health r t s m =
      if ltb t.checked (m.last_redis_check + seconds 30)
      then (m.redis_available, m)
      else let (reply, s') = r.ping s in pinged t.pinged reply s' m

  unfoldable pub check_client :
      Redis S → Times → Option S → CacheManager V S → Option S × CacheManager V S
  unfolding check_redis_health
  check_client r t none m = (none, m)
  check_client r t (some s) m =
      let (ok_now, m') = check_redis_health r t s m in
      ((if ok_now then m'.redis_client else none), m')

  -- `self.redis_client and self._check_redis_health()`
  unfoldable pub healthy : Redis S → Times → CacheManager V S → Option S × CacheManager V S
  unfolding check_client
  healthy r t m = check_client r t m.redis_client m

  -- A command under `_with_retry`, and the server after it.
  unfoldable pub call {κ} :
      {B : Type κ}
      → Redis S
      → (S → Reply B × S)
      → S
      → CacheManager V S
      → Ended B × S × CacheManager V S
  call r f s m =
      let (ended, available, s') = with_retry r.reset m.max_retries f m.redis_available s in
      (ended, s', record m { redis_client = some s'; redis_available = available })

  -- The corrupted entry is deleted; a `RedisError` there is caught.
  unfoldable pub drop_corrupt : Redis S → String → S → CacheManager V S → Found V × CacheManager V S
  unfolding call
  drop_corrupt r key s m =
      let (ended, s', m') = call r (r.delete (key ∷ [])) s m in
      ((elim ended [ no_attempt ↦ breaks no_exception | _ ↦ miss ]), m')

  unfoldable pub unpickle :
      Redis S → String → S → CacheManager V S → Loaded V → Found V × CacheManager V S
  unfolding drop_corrupt
  unpickle r key s m (loaded v) = (hit v, m)
  unpickle r key s m corrupt = drop_corrupt r key s m
  unpickle r key s m (load_raises e) = (breaks e, m)

  -- `if value:`
  unfoldable pub read :
      Redis S
      → Pickle V
      → String
      → Ended (Option String)
      → S
      → CacheManager V S
      → Found V × CacheManager V S
  unfolding unpickle
  read r p key (returned none) s m = (miss, m)
  read r p key (returned (some bytes)) s m =
      if bytes == "" then (miss, m) else unpickle r key s m (p.loads bytes)
  read r p key exhausted s m = (miss, m)
  read r p key failed s m = (miss, m)
  read r p key no_attempt s m = (breaks no_exception, m)

  unfoldable pub get_from_redis :
      Redis S → Pickle V → String → Option S → CacheManager V S → Found V × CacheManager V S
  unfolding call read
  get_from_redis r p key none m = (miss, m)
  get_from_redis r p key (some s) m =
      let (ended, s', m') = call r (r.get key) s m in read r p key ended s' m'

  -- An entry that has expired is deleted.
  unfoldable pub get_from_memory : ℕ → String → CacheManager V S → Option V × CacheManager V S
  get_from_memory now key m = elim (lookup key m.memory_cache) [
    | none ↦ (none, m)
    | some item ↦
        if ltb now item.expires
        then (some item.value, m)
        else (none, record m { memory_cache = remove key m.memory_cache })
  ]

  unfoldable pub fall_back :
      ℕ → String → Found V → CacheManager V S → Result (Option V) × CacheManager V S
  unfolding get_from_memory
  fall_back now key (hit v) m = (ok (some v), m)
  fall_back now key miss m = let (found, m') = get_from_memory now key m in (ok found, m')
  fall_back now key (breaks e) m = (raise e, m)

  unfoldable pub get :
      Redis S → Pickle V → Times → String → CacheManager V S → Result (Option V) × CacheManager V S
  unfolding healthy get_from_redis fall_back
  get r p t key m =
      let (client, m') = healthy r t m in
      let (found, m'') = get_from_redis r p key client m' in fall_back t.used key found m''
