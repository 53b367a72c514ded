-- ===== src/Cache/Manager/Frame.antt =====
-- Whatever Redis does, the tier of Redis leaves the memory cache and the settings alone.
use tei_nlp_converter.Base.{
  ℕ, zero, suc, String, Bool, Option, none, some, List, [], ◌∷◌, string_key, ◌==◌, ltb, nat_beq,
  Result, ◌≡◌, refl, ◌∙◌, Bool-cases, inl, inr, ◌+◌,
}
use tei_nlp_converter.Cache.Redis.{
  Reply, done, connection_error, redis_error, Redis, Pickle, Loaded, loaded, corrupt, load_raises,
  Dumped, dumped, unpicklable, dump_raises, Ended, returned, exhausted, failed, no_attempt,
}
use tei_nlp_converter.Cache.Manager.{
  seconds, CacheManager, Times, pinged, check_redis_health, check_client, healthy, call,
  drop_corrupt, unpickle, read, get_from_redis,
}
use tei_nlp_converter.Cache.Manager.Writes.{
  set_in_redis, delete_in_redis, delete_page, after_delete, after_scan, scan_loop,
}

module _ {ℓ} {V S : Type ℓ} where
  -- Only what is known of Redis differs.
  pub record IsFramed (m m' : CacheManager V S) : Type ℓ where
    pub memory : m'.memory_cache ≡ m.memory_cache
    pub size : m'.max_memory_cache ≡ m.max_memory_cache
    pub lifetime : m'.ttl ≡ m.ttl
    pub retries : m'.max_retries ≡ m.max_retries

  pub IsFramed-refl : (m : CacheManager V S) → IsFramed m m
  IsFramed-refl m = record { memory = refl; size = refl; lifetime = refl; retries = refl }

  pub IsFramed-trans :
      {m m' m'' : CacheManager V S} → IsFramed m m' → IsFramed m' m'' → IsFramed m m''
  IsFramed-trans a b = record {
    memory = b.memory ∙ a.memory;
    size = b.size ∙ a.size;
    lifetime = b.lifetime ∙ a.lifetime;
    retries = b.retries ∙ a.retries;
  }

  IsFramed-redis :
      (client : Option S) (available : Bool) (checked : ℕ) (m : CacheManager V S)
      → IsFramed m (record m {
        redis_client = client;
        redis_available = available;
        last_redis_check = checked;
      })
  IsFramed-redis client available checked m = record {
    memory = refl;
    size = refl;
    lifetime = refl;
    retries = refl;
  }

  pinged-IsFramed :
      (now : ℕ) (reply : Reply (Unit {0})) (s : S) (m : CacheManager V S)
      → IsFramed m (pinged now reply s m).1
  unfolding pinged
  pinged-IsFramed now (done u) s m = IsFramed-redis _ _ _ m
  pinged-IsFramed now connection_error s m = IsFramed-redis _ _ _ m
  pinged-IsFramed now redis_error s m = IsFramed-redis _ _ _ m

  check_redis_health-IsFramed :
      (r : Redis S) (t : Times) (s : S) (m : CacheManager V S)
      → IsFramed m (check_redis_health r t s m).1
  unfolding check_redis_health
  check_redis_health-IsFramed r t s m =
      elim (Bool-cases (ltb t.checked (m.last_redis_check + seconds 30))) [
        | inl recent ↦ rw (check_redis_health, recent) (IsFramed-refl m)
        | inr due ↦
            rw (check_redis_health, due) (pinged-IsFramed t.pinged (r.ping s).0 (r.ping s).1 m)
      ]

  check_client-IsFramed :
      (r : Redis S) (t : Times) (client : Option S) (m : CacheManager V S)
      → IsFramed m (check_client r t client m).1
  unfolding check_client
  check_client-IsFramed r t none m = IsFramed-refl m
  check_client-IsFramed r t (some s) m = check_redis_health-IsFramed r t s m

  pub healthy-IsFramed :
      (r : Redis S) (t : Times) (m : CacheManager V S) → IsFramed m (healthy r t m).1
  unfolding healthy
  healthy-IsFramed r t m = check_client-IsFramed r t m.redis_client m

  pub call-IsFramed {κ} :
      {B : Type κ} (r : Redis S) (f : S → Reply B × S) (s : S) (m : CacheManager V S)
      → IsFramed m (call r f s m).2
  unfolding call
  call-IsFramed r f s m = IsFramed-redis _ _ _ m

  unpickle-IsFramed :
      (r : Redis S) (key : String) (s : S) (m : CacheManager V S) (l : Loaded V)
      → IsFramed m (unpickle r key s m l).1
  unfolding unpickle drop_corrupt
  unpickle-IsFramed r key s m (loaded v) = IsFramed-refl m
  unpickle-IsFramed r key s m corrupt = call-IsFramed r (r.delete (key ∷ [])) s m
  unpickle-IsFramed r key s m (load_raises e) = IsFramed-refl m

  read-IsFramed :
      (r : Redis S) (p : Pickle V) (key : String) (ended : Ended (Option String)) (s : S)
      (m : CacheManager V S)
      → IsFramed m (read r p key ended s m).1
  unfolding read
  read-IsFramed r p key (returned none) s m = IsFramed-refl m
  read-IsFramed r p key (returned (some bytes)) s m = elim (Bool-cases (bytes == "")) [
    | inl nothing ↦ rw (read, nothing) (IsFramed-refl m)
    | inr something ↦ rw (read, something) (unpickle-IsFramed r key s m (p.loads bytes))
  ]
  read-IsFramed r p key exhausted s m = IsFramed-refl m
  read-IsFramed r p key failed s m = IsFramed-refl m
  read-IsFramed r p key no_attempt s m = IsFramed-refl m

  pub get_from_redis-IsFramed :
      (r : Redis S) (p : Pickle V) (key : String) (client : Option S) (m : CacheManager V S)
      → IsFramed m (get_from_redis r p key client m).1
  unfolding get_from_redis
  get_from_redis-IsFramed r p key none m = IsFramed-refl m
  get_from_redis-IsFramed r p key (some s) m =
      let (ended, s', m') = call r (r.get key) s m in
      IsFramed-trans (call-IsFramed r (r.get key) s m) (read-IsFramed r p key ended s' m')

  pub set_in_redis-IsFramed :
      (r : Redis S) (key : String) (ttl : ℕ) (bytes : Dumped) (client : Option S)
      (m : CacheManager V S)
      → IsFramed m (set_in_redis r key ttl bytes client m).1
  unfolding set_in_redis
  set_in_redis-IsFramed r key ttl bytes none m = IsFramed-refl m
  set_in_redis-IsFramed r key ttl (dumped bytes) (some s) m =
      call-IsFramed r (r.setex key ttl bytes) s m
  set_in_redis-IsFramed r key ttl unpicklable (some s) m = IsFramed-refl m
  set_in_redis-IsFramed r key ttl (dump_raises e) (some s) m = IsFramed-refl m

  pub delete_in_redis-IsFramed :
      (r : Redis S) (key : String) (client : Option S) (m : CacheManager V S)
      → IsFramed m (delete_in_redis r key client m).1
  unfolding delete_in_redis
  delete_in_redis-IsFramed r key none m = IsFramed-refl m
  delete_in_redis-IsFramed r key (some s) m = call-IsFramed r (r.delete (key ∷ [])) s m

  delete_page-IsFramed :
      (r : Redis S) (keys : List String) (s : S) (m : CacheManager V S)
      → IsFramed m (delete_page r keys s m).2
  unfolding delete_page
  delete_page-IsFramed r [] s m = IsFramed-refl m
  delete_page-IsFramed r (k ∷ ks) s m = call-IsFramed r (r.delete (k ∷ ks)) s m

  after_delete-IsFramed :
      (more : ℕ → ℕ → S → CacheManager V S → Result ℕ × CacheManager V S)
      → ((cursor count : ℕ) (s : S) (m : CacheManager V S) → IsFramed m (more cursor count s m).1)
      → (next count : ℕ) (ended : Ended ℕ) (s : S) (m : CacheManager V S)
      → IsFramed m (after_delete more next count ended s m).1
  unfolding after_delete
  after_delete-IsFramed more h next count (returned n) s m = elim (Bool-cases (nat_beq next 0)) [
    | inl last ↦ rw (after_delete, last) (IsFramed-refl m)
    | inr further ↦ rw (after_delete, further) (h next (count + n) s m)
  ]
  after_delete-IsFramed more h next count exhausted s m = IsFramed-refl m
  after_delete-IsFramed more h next count failed s m = IsFramed-refl m
  after_delete-IsFramed more h next count no_attempt s m = IsFramed-refl m

  after_scan-IsFramed :
      (more : ℕ → ℕ → S → CacheManager V S → Result ℕ × CacheManager V S)
      → ((cursor count : ℕ) (s : S) (m : CacheManager V S) → IsFramed m (more cursor count s m).1)
      → (r : Redis S) (count : ℕ) (page : Ended (ℕ × List String)) (s : S) (m : CacheManager V S)
      → IsFramed m (after_scan more r count page s m).1
  unfolding after_scan
  after_scan-IsFramed more h r count (returned (next, keys)) s m =
      let (ended, s', m') = delete_page r keys s m in
      IsFramed-trans (delete_page-IsFramed r keys s m)
        (after_delete-IsFramed more h next count ended s' m')
  after_scan-IsFramed more h r count exhausted s m = IsFramed-refl m
  after_scan-IsFramed more h r count failed s m = IsFramed-refl m
  after_scan-IsFramed more h r count no_attempt s m = IsFramed-refl m

  pub scan_loop-IsFramed :
      (fuel : ℕ) (r : Redis S) (pattern : String) (cursor count : ℕ) (s : S) (m : CacheManager V S)
      → IsFramed m (scan_loop fuel r pattern cursor count s m).1
  unfolding scan_loop
  scan_loop-IsFramed zero r pattern cursor count s m = IsFramed-refl m
  scan_loop-IsFramed (suc fuel) r pattern cursor count s m =
      let (page, s', m') = call r (r.scan cursor pattern) s m in
      IsFramed-trans (call-IsFramed r (r.scan cursor pattern) s m) (
        after_scan-IsFramed (scan_loop fuel r pattern) (scan_loop-IsFramed fuel r pattern) r count
          page s' m')
