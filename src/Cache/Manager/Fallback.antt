-- ===== src/Cache/Manager/Fallback.antt =====
-- While Redis is down, the memory answers.
use tei_nlp_converter.Base.{
  ℕ, zero, suc, ◌+◌, ◌<◌, String, Bool, true, false, Option, none, some, get as lookup, get-put,
  string_key, ==_refl, ltb, if◌then◌else◌, ok, Exc, ◌≡◌, ◌≢◌, refl, arith, ◌∙◌, Bool-cases, inl,
  inr, ◌⊎◌,
}
use tei_nlp_converter.Cache.Redis.{
  Reply, done, connection_error, redis_error, Redis, Pickle, Dumped, dumped, unpicklable,
  dump_raises, Ended, returned, exhausted, failed, no_attempt, pause, attempts, with_retry,
}
use tei_nlp_converter.Cache.Manager.{
  Item, CacheManager, Times, seconds, miss, healthy, call, read, get_from_redis, get_from_memory,
  fall_back, get,
}
use tei_nlp_converter.Cache.Manager.Writes.{
  evict, set_memory_cache, ttl_or, stored, set_in_redis, then_in_memory, set,
}
use tei_nlp_converter.Cache.Manager.Frame.{
  healthy-IsFramed, get_from_redis-IsFramed, set_in_redis-IsFramed,
}

-- No read of Redis succeeds.
unfoldable pub IsDown {ℓ} : {S : Type ℓ} → Redis S → Type ℓ
IsDown {S} r = (key : String) (s : S) (o : Option String) → (r.get key s).0 ≢ done o

-- How attempts may end that are made at all: with an answer only if a call gave it.
data Possible {ℓ κ} {S : Type ℓ} {B : Type κ} (f : S → Reply B × S) : Ended B → Type (ℓ ⊔ κ) where
  answered : {b : B} (s : S) → (f s).0 ≡ done b → Possible f (returned b)
  gave_up : Possible f exhausted
  refused : Possible f failed

module _ {ℓ κ} {S : Type ℓ} {B : Type κ} (reset : S → S) (f : S → Reply B × S) where
  by_reply :
      (n : ℕ) (s : S) (reply : Reply B)
      → (f s).0 ≡ reply
      → ((s' : S) → Possible f (attempts reset f true n s').0)
      → (tried : Bool) → Possible f (attempts reset f tried (suc n) s).0
  unfolding attempts
  by_reply n s (done b) e again tried = rw (attempts, e) (answered s e)
  by_reply n s connection_error e again tried = rw (attempts, e) (again (pause reset n (f s).1))
  by_reply n s redis_error e again tried = rw (attempts, e) refused

  attempts-Possible :
      (tried : Bool) (n : ℕ) (s : S)
      → (0 < n) ⊎ (tried ≡ true)
      → Possible f (attempts reset f tried n s).0
  unfolding attempts
  attempts-Possible true zero s h = gave_up
  attempts-Possible false zero s h = elim h [
    | inl less ↦ absurd (omega (arith, less))
    | inr never ↦ absurd (cc never)
  ]
  attempts-Possible tried (suc n) s h =
      by_reply n s (f s).0 refl (λ s'. attempts-Possible true n s' (inr refl)) tried

-- The value of an item that has not expired.
abbrev pub valid {ℓ} : {V : Type ℓ} → ℕ → Item V → Option V
valid now item = if ltb now item.expires then some item.value else none

stored_ok {ℓ κ} :
    {S : Type ℓ} {B : Type κ} {f : S → Reply B × S} {ended : Ended B}
    → Possible f ended
    → (success : Bool) × (stored ended ≡ ok success)
unfolding stored
stored_ok (answered s e) = (true, refl)
stored_ok gave_up = (false, refl)
stored_ok refused = (false, refl)

module _ {ℓ} {V S : Type ℓ} where
  -- What a read of Redis gives while it is down.
  read_down :
      (r : Redis S) (p : Pickle V) (key : String) (ended : Ended (Option String)) (s : S)
      (m : CacheManager V S)
      → IsDown r
      → Possible (r.get key) ended
      → (read r p key ended s m).0 ≡ miss
  unfolding read IsDown
  read_down r p key (returned o) s m down (answered s' e) = absurd (down key s' o e)
  read_down r p key exhausted s m down gave_up = refl
  read_down r p key failed s m down refused = refl
  read_down r p key no_attempt s m down possible = elim possible [ ]

  get_from_redis_down :
      (r : Redis S) (p : Pickle V) (key : String) (client : Option S) (m : CacheManager V S)
      → IsDown r
      → 0 < m.max_retries
      → (get_from_redis r p key client m).0 ≡ miss
  unfolding get_from_redis call with_retry
  get_from_redis_down r p key none m down tries = refl
  get_from_redis_down r p key (some s) m down tries =
      read_down r p key _ _ _ down
        (attempts-Possible r.reset (r.get key) false m.max_retries s (inl tries))

  get_from_memory_found :
      (now : ℕ) (key : String) (m : CacheManager V S) (item : Item V)
      → lookup key m.memory_cache ≡ some item
      → (fall_back now key miss m).0 ≡ ok (valid now item)
  unfolding fall_back get_from_memory
  get_from_memory_found now key m item found = elim (Bool-cases (ltb now item.expires)) [
    | inl fresh ↦ rw (fall_back, get_from_memory, found, fresh) refl
    | inr old ↦ rw (fall_back, get_from_memory, found, old) refl
  ]

  -- With no answer from Redis, `get` is the memory's.
  get_down :
      (r : Redis S) (p : Pickle V) (t : Times) (key : String) (m : CacheManager V S) (item : Item V)
      → IsDown r
      → 0 < m.max_retries
      → lookup key m.memory_cache ≡ some item
      → (get r p t key m).0 ≡ ok (valid t.used item)
  unfolding get
  get_down r p t key m item down tries found =
      let (client, m') = healthy r t m in
      let (answer, m'') = get_from_redis r p key client m' in
      let to = healthy-IsFramed r t m in
      let back = get_from_redis-IsFramed r p key client m' in
      rw (get, get_from_redis_down r p key client m' down (rw to.retries tries))
        (get_from_memory_found t.used key m'' item (rw (back.memory, to.memory) found))

  set_in_redis_ok :
      (r : Redis S) (key : String) (ttl : ℕ) (bytes : Dumped) (client : Option S)
      (m : CacheManager V S)
      → 0 < m.max_retries
      → ((e : Exc) → bytes ≢ dump_raises e)
      → (success : Bool) × ((set_in_redis r key ttl bytes client m).0 ≡ ok success)
  unfolding set_in_redis call with_retry
  set_in_redis_ok r key ttl bytes none m tries fine = (false, refl)
  set_in_redis_ok r key ttl (dumped bytes) (some s) m tries fine =
      stored_ok
        (attempts-Possible r.reset (r.setex key ttl bytes) false m.max_retries s (inl tries))
  set_in_redis_ok r key ttl unpicklable (some s) m tries fine = (false, refl)
  set_in_redis_ok r key ttl (dump_raises e) (some s) m tries fine = absurd (fine e refl)

  -- While no read of Redis succeeds, with at least one retry and a value that `pickle` takes or refuses:
  -- `set` raises nothing, and then `get` raises nothing and answers the value until its lifetime has
  -- passed, then nothing.
  pub get-set_down :
      (r : Redis S) (p : Pickle V) (t t' : Times) (key : String) (value : V) (ttl : Option ℕ)
      (m : CacheManager V S)
      → IsDown r
      → 0 < m.max_retries
      → ((e : Exc) → p.dumps value ≢ dump_raises e)
      → (success : Bool) × ((set r p t key value ttl m).0 ≡ ok success)
        × ((get r p t' key (set r p t key value ttl m).1).0
            ≡ ok (if ltb t'.used (t.used + seconds (ttl_or ttl m)) then some value else none))
  unfolding set then_in_memory set_memory_cache
  get-set_down r p t t' key value ttl m down tries fine =
      let lifetime = ttl_or ttl m in
      let (client, m') = healthy r t m in
      let (done_so, m'') = set_in_redis r key lifetime (p.dumps value) client m' in
      let to = healthy-IsFramed r t m in
      let on = set_in_redis-IsFramed r key lifetime (p.dumps value) client m' in
      let (success, is_ok) =
        set_in_redis_ok r key lifetime (p.dumps value) client m' (rw to.retries tries) fine in
      let item : Item V = record {
        value = value;
        expires = t.used + seconds lifetime;
        last_accessed = t.used_again;
      } in
      let written = set_memory_cache t.used t.used_again key value lifetime m'' in
      let there : lookup key written.memory_cache ≡ some item =
        get-put key key item (evict m''.max_memory_cache m''.memory_cache)
        ∙ rw (==_refl key) refl in
      (
        success,
        rw (set, is_ok) refl,
        rw (set, is_ok)
            (get_down r p t' key written item down (rw (on.retries, to.retries) tries) there),
      )
