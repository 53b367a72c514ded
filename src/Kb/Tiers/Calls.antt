-- ===== src/Kb/Tiers/Calls.antt =====
-- Whatever Redis does, as long as it comes back, the cache manager raises nothing and counts right.
use tei_nlp_converter.Base.{
  ℕ, ◌+◌, ◌≤◌, ◌<◌, String, Bool, true, false, Option, none, some, List, [], ◌∷◌, string_key, take,
  Result, ok, raise, diverges, ◌≡◌, refl, arith, inl, inr, Result-cases, Returns, Returns-ok,
  Returns-bind, Settles, Settles-ok, Settles-if, Settles-bind, catch_returns,
}
use tei_nlp_converter.Kb.Lru.{LruCache}
use tei_nlp_converter.Kb.Lru as Lru
use tei_nlp_converter.Kb.Lru.Room.{IsBounded}
use tei_nlp_converter.Kb.Lru.Bound.{get-IsBounded, get-IsSized, set-Returns as set_memory}
use tei_nlp_converter.Kb.Tiers.{
  KbEntity, Services, MultiTierCacheManager, init, make_key, key_of, decode, get_from_redis,
  swallow, set_in_redis, commands, bulk_set_redis, with_redis, get_from_db, promote, look_in_db,
  from_redis, look_in_redis, look_in_memory, get, set, insert_all, bulk_insert, clear_all, Call,
  get_call, set_call, bulk_insert_call, clear_all_call, run,
}
use tei_nlp_converter.Kb.Tiers as Tiers

-- The client and the codec come back from every call, with a value or an exception.
pub record IsLive {ℓ} {R S : Type ℓ} (s : Services R S) : Type ℓ where
  pub get : (key : String) (r : S) → Settles (s.get key r)
  pub setex :
      (key : String) (ttl : ℕ) (value : String) (r : S) → Settles (s.setex key ttl value r).0
  pub execute : (rows : List (String × ℕ × String)) (r : S) → Settles (s.execute rows r).0
  pub dumps : (e : KbEntity R) → Settles (s.dumps e)
  pub loads : (value : String) → Settles (s.loads value)

abbrev pub IsAny {ℓ} : {A : Type ℓ} → A → Type 0
IsAny a = Unit

swallow-Returns {ℓ} :
    {S : Type ℓ} (p : Result (Unit {0}) × S) → Settles p.0 → Returns IsAny (swallow p)
unfolding swallow
swallow-Returns (ok u, r) h = Returns-ok r tt
swallow-Returns (raise e, r) h = Returns-ok r tt
swallow-Returns (diverges, r) h = absurd (h.settles refl)

pub with_redis-Returns {ℓ} :
    {S : Type ℓ} (f : S → Result S) (o : Option S)
    → ((r : S) → Returns IsAny (f r))
    → Returns IsAny (with_redis f o)
unfolding with_redis
with_redis-Returns f none h = Returns-ok none tt
with_redis-Returns f (some r) h = Returns-bind _ _ (h r) λ r' _. Returns-ok (some r') tt

module _ {ℓ} {R S : Type ℓ} where
  -- The memory has places and keeps to them; every hit is one of a lookup, and the database has none.
  pub record IsGood (m : MultiTierCacheManager R S) : Type ℓ where
    pub roomy : 0 < m.memory_cache.maxsize
    pub bounded : IsBounded m.memory_cache
    pub counted : m.l1_hits + m.l2_hits ≤ m.total_lookups
    pub no_l3 : m.l3_hits ≡ 0

  -- The same manager with another memory.
  record Promoted (m m' : MultiTierCacheManager R S) : Type ℓ where
    memory : LruCache (KbEntity R)
    size : memory.maxsize ≡ m.memory_cache.maxsize
    bounded : IsBounded memory
    same : m' ≡ record m { memory_cache = memory }

  promote-Returns :
      (now : ℕ) (key : String) (e : KbEntity R) (m : MultiTierCacheManager R S)
      → 0 < m.memory_cache.maxsize
      → IsBounded m.memory_cache
      → Returns (Promoted m) (promote now key e m)
  unfolding promote
  promote-Returns now key e m roomy bounded =
      Returns-bind _ _ (set_memory now key e m.memory_cache roomy bounded) λ c (b, (size, ttl)).
        Returns-ok _ (record { memory = c; size = size; bounded = b; same = refl })

  Promoted-IsGood : {m m' : MultiTierCacheManager R S} → IsGood m → Promoted m m' → IsGood m'
  Promoted-IsGood good p = rw p.same (record {
    roomy = rw p.size good.roomy;
    bounded = p.bounded;
    counted = good.counted;
    no_l3 = good.no_l3;
  })

  -- Of a manager whose Redis alone changes.
  with-IsGood :
      (redis : Option S) (m : MultiTierCacheManager R S)
      → IsGood m
      → IsGood (record m { redis = redis })
  with-IsGood redis m good = record {
    roomy = good.roomy;
    bounded = good.bounded;
    counted = good.counted;
    no_l3 = good.no_l3;
  }

  clear_all-IsGood : (m : MultiTierCacheManager R S) → IsGood m → IsGood (clear_all m)
  unfolding clear_all Lru.clear
  clear_all-IsGood m good = record {
    roomy = good.roomy;
    bounded = record { distinct = tt; bounded = omega arith };
    counted = good.counted;
    no_l3 = good.no_l3;
  }

  look_in_db_nothing :
      (s : Services R S) (now : ℕ) (key : String) (db : Bool) (m : MultiTierCacheManager R S)
      → look_in_db s now key db none m ≡ ok (none, m)
  unfolding look_in_db
  look_in_db_nothing s now key true m = refl
  look_in_db_nothing s now key false m = refl

  module _ (s : Services R S) (live : IsLive s) where
    pub set_in_redis-Returns :
        (ttl : ℕ) (key : String) (e : KbEntity R) (r : S)
        → Returns IsAny (set_in_redis s ttl key e r)
    unfolding set_in_redis
    set_in_redis-Returns ttl key e r = elim (Result-cases (s.dumps e)) [
      | inl (value, done) ↦ rw (set_in_redis, done) (swallow-Returns _ (live.setex key ttl value r))
      | inr (inl (error, raised)) ↦ rw (set_in_redis, raised) (Returns-ok r tt)
      | inr (inr never) ↦ absurd ((live.dumps e).settles never)
    ]

    decode-Settles : (o : Option String) → Settles (decode s o)
    unfolding decode
    decode-Settles none = Settles-ok none
    decode-Settles (some value) =
        Settles-if _ (Settles-ok none) (Settles-bind _ _ (live.loads value) λ e _. Settles-ok _)

    from_redis-Returns : (key : String) (o : Option S) → Returns IsAny (from_redis s key o)
    unfolding from_redis get_from_redis
    from_redis-Returns key none = Returns-ok none tt
    from_redis-Returns key (some r) =
        let (found, done) =
          catch_returns _ (λ e. none) (Settles-bind _ _ (live.get key r) λ o _. decode-Settles o) in
        record { value = found; is_ok = done; good = tt }

    look_in_memory-Returns :
        (now : ℕ) (key : String) (found : Option (KbEntity R)) (m : MultiTierCacheManager R S)
        → 0 < m.memory_cache.maxsize
        → IsBounded m.memory_cache
        → m.l1_hits + m.l2_hits + 1 ≤ m.total_lookups
        → m.l3_hits ≡ 0
        → Returns (λ r. IsGood r.1) (look_in_memory s now key found none m)
    unfolding look_in_memory look_in_redis look_in_db
    look_in_memory-Returns now key (some e) m roomy bounded counted no_l3 =
        Returns-ok _
          (record { roomy = roomy; bounded = bounded; counted = omega arith; no_l3 = no_l3 })
    look_in_memory-Returns now key none m roomy bounded counted no_l3 =
        Returns-bind _ _ (from_redis-Returns key m.redis) λ found _. by_found found
      where
        by_found :
            (found : Option (KbEntity R))
            → Returns (λ r. IsGood r.1) (look_in_redis s now key found none m)
        by_found none = rw (look_in_db_nothing s now key m.db m) (
            Returns-ok _
              (record { roomy = roomy; bounded = bounded; counted = omega arith; no_l3 = no_l3 }))
        by_found (some e) = Returns-bind _ _ (promote-Returns now key e _ roomy bounded) λ m' p.
            Returns-ok _ (
              rw p.same (record {
                roomy = rw p.size roomy;
                bounded = p.bounded;
                counted = omega arith;
                no_l3 = no_l3;
              }))

    get-Returns :
        (now now' : ℕ) (kb_id text type : String) (m : MultiTierCacheManager R S)
        → IsGood m
        → Returns (λ r. IsGood r.1) (get s now now' kb_id text type m)
    unfolding get get_from_db
    get-Returns now now' kb_id text type m good =
        look_in_memory-Returns now' _ _ _ (rw (get-IsSized now _ m.memory_cache).0 good.roomy)
          (get-IsBounded now _ m.memory_cache good.bounded) (omega (arith, good.counted)) good.no_l3

    set-Returns :
        (now : ℕ) (e : KbEntity R) (m : MultiTierCacheManager R S)
        → IsGood m
        → Returns IsGood (set s now e m)
    unfolding set
    set-Returns now e m good =
        Returns-bind _ _ (promote-Returns now (key_of s e) e m good.roomy good.bounded) λ m' p.
          Returns-bind _ _
            (with_redis-Returns _ m.redis (set_in_redis-Returns m.redis_ttl (key_of s e) e))
            λ redis _. Returns-ok _ (with-IsGood redis m' (Promoted-IsGood good p))

    insert_all-Returns :
        (clock : ℕ → ℕ) (es : List (KbEntity R)) (m : MultiTierCacheManager R S)
        → IsGood m
        → Returns IsGood (insert_all s clock es m)
    unfolding insert_all
    insert_all-Returns clock [] m good = Returns-ok m good
    insert_all-Returns clock (e ∷ es) m good =
        Returns-bind _ _ (promote-Returns (clock 0) (key_of s e) e m good.roomy good.bounded)
          λ m' p. insert_all-Returns (λ i. clock (i + 1)) es m' (Promoted-IsGood good p)

    commands-Settles : (ttl : ℕ) (es : List (KbEntity R)) → Settles (commands s ttl es)
    unfolding commands
    commands-Settles ttl [] = Settles-ok []
    commands-Settles ttl (e ∷ es) =
        Settles-bind _ _ (live.dumps e)
          λ value _. Settles-bind _ _ (commands-Settles ttl es) λ rest _. Settles-ok _

    bulk_set_redis-Returns :
        (ttl : ℕ) (es : List (KbEntity R)) (r : S) → Returns IsAny (bulk_set_redis s ttl es r)
    unfolding bulk_set_redis
    bulk_set_redis-Returns ttl es r = elim (Result-cases (commands s ttl es)) [
      | inl (rows, done) ↦ rw (bulk_set_redis, done) (swallow-Returns _ (live.execute rows r))
      | inr (inl (error, raised)) ↦ rw (bulk_set_redis, raised) (Returns-ok r tt)
      | inr (inr never) ↦ absurd ((commands-Settles ttl es).settles never)
    ]

    bulk_insert-Returns :
        (clock : ℕ → ℕ) (es : List (KbEntity R)) (m : MultiTierCacheManager R S)
        → IsGood m
        → Returns IsGood (bulk_insert s clock es m)
    unfolding bulk_insert
    bulk_insert-Returns clock [] m good = Returns-ok m good
    bulk_insert-Returns clock (e ∷ es) m good =
        Returns-bind _ _ (insert_all-Returns clock (take 1000 (e ∷ es)) m good) λ m' good'.
          Returns-bind _ _
            (with_redis-Returns _ m.redis (bulk_set_redis-Returns m.redis_ttl (e ∷ es)))
            λ redis _. Returns-ok _ (with-IsGood redis m' good')

    step-Returns :
        (call : Call R) (m : MultiTierCacheManager R S)
        → IsGood m
        → Returns IsGood (Tiers.step s call m)
    unfolding Tiers.step
    step-Returns (get_call now now' kb_id text type) m good =
        Returns-bind _ _ (get-Returns now now' kb_id text type m good)
          λ r good'. Returns-ok r.1 good'
    step-Returns (set_call now e) m good = set-Returns now e m good
    step-Returns (bulk_insert_call clock es) m good = bulk_insert-Returns clock es m good
    step-Returns clear_all_call m good = Returns-ok _ (clear_all-IsGood m good)

    run-Returns :
        (calls : List (Call R)) (m : MultiTierCacheManager R S)
        → IsGood m
        → Returns IsGood (run s calls m)
    unfolding run
    run-Returns [] m good = Returns-ok m good
    run-Returns (call ∷ calls) m good =
        Returns-bind _ _ (step-Returns call m good) λ m' good'. run-Returns calls m' good'

  -- Of a new manager with places in its memory, and with a Redis that comes back from its calls, be it
  -- with errors: no call of `get`, `set`, `bulk_insert` and `clear_all` raises, the memory keeps to its
  -- size, the hits are not more than the lookups, and the third tier never has a hit.
  pub run-IsGood :
      (s : Services R S) (memory_size memory_ttl : ℕ) (redis : Option S) (db : Bool)
      (calls : List (Call R))
      → IsLive s
      → 0 < memory_size
      → (m : MultiTierCacheManager R S) × (run s calls (init memory_size memory_ttl redis db)
          ≡ ok m)
        × IsGood m
  unfolding init Lru.init
  run-IsGood s memory_size memory_ttl redis db calls live roomy =
      let done = run-Returns s live calls (init memory_size memory_ttl redis db) (record {
        roomy = roomy;
        bounded = record { distinct = tt; bounded = omega arith };
        counted = omega arith;
        no_l3 = refl;
      }) in
      (done.value, done.is_ok, done.good)
