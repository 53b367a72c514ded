-- ===== src/Cache/Manager/Bound.antt =====
-- The memory cache keeps to its size, whatever is called and whatever Redis does.
use tei_nlp_converter.Base.{
  ℕ, zero, suc, ◌+◌, ◌/◌, ◌≤◌, ◌<◌, max, String, Bool, Option, none, some, List, [], ◌∷◌, Dict,
  get as lookup, remove, string_key, ltb, leb, length, take, sort, length-sort, All, All-get,
  All-sort, Result, ok, raise, diverges, ◌≡◌, ◌≢◌, refl, arith, ◌∙◌, Bool-cases, Option-cases, inl,
  inr, length-put, length-remove, length-remove_some,
}
use tei_nlp_converter.Cache.Redis.{Redis, Pickle}
use tei_nlp_converter.Cache.Manager.{
  Item, CacheManager, Times, Found, hit, miss, breaks, init, healthy, get_from_redis,
  get_from_memory, fall_back, get,
}
use tei_nlp_converter.Cache.Manager.Writes.{
  older, remove_keys, evict, selected, set_memory_cache, ttl_or, set_in_redis, then_in_memory, set,
  delete_in_redis, then_delete, delete, clear_in_redis, then_clear, clear_pattern, clear_expired,
  close,
}
use tei_nlp_converter.Cache.Manager.Frame.{
  IsFramed, IsFramed-refl, healthy-IsFramed, get_from_redis-IsFramed, set_in_redis-IsFramed,
  delete_in_redis-IsFramed, scan_loop-IsFramed,
}

module _ {ℓ} {V : Type ℓ} where
  length-remove_keys :
      (xs : List (String × Item V)) (d : Dict String (Item V))
      → length (remove_keys xs d) ≤ length d
  unfolding remove_keys
  length-remove_keys [] d = omega arith
  length-remove_keys (x ∷ xs) d =
      omega (arith, length-remove_keys xs (remove x.0 d), length-remove x.0 d)

  -- Where the first of the keys is there, at least one entry goes.
  length-remove_take :
      (n : ℕ) (xs : List (String × Item V)) (d : Dict String (Item V))
      → 0 < n
      → 0 < length xs
      → All (λ x. lookup x.0 d ≢ none) xs
      → length (remove_keys (take n xs) d) + 1 ≤ length d
  unfolding remove_keys
  length-remove_take zero xs d n h found = absurd (omega (arith, n))
  length-remove_take (suc m) [] d n h found = absurd (omega (arith, h))
  length-remove_take (suc m) (x ∷ xs) d n h found =
      omega (arith, length-remove_keys (take m xs) (remove x.0 d), length-remove_some x.0 d found.0)

  length-evict :
      (size : ℕ) (d : Dict String (Item V))
      → length d ≤ max 1 size
      → length (evict size d) + 1 ≤ max 1 size
  unfolding evict
  length-evict size d h = elim (Bool-cases (leb size (length d))) [
    | inl full ↦
        rw (evict, full)
          (elim (Bool-cases (leb 1 (length d))) [
            | inl some_there ↦
                let found = All-sort older (λ x. lookup x.0 d ≢ none) d (All-get d) in
                omega (
                  arith,
                  h,
                  length-remove_take (max 1 (size / 10)) (sort older d) d (omega arith)
                      (ground (arith, length-sort older d)) found,
                )
            | inr none_there ↦
                ground (arith, length-remove_keys (take (max 1 (size / 10)) (sort older d)) d)
          ])
    | inr room ↦ rw (evict, room) (ground arith)
  ]

-- A call of the manager. What it raises is its caller's.
pub data Call {ℓ} (V : Type ℓ) : Type ℓ where
  get_call : Times → String → Call V
  set_call : Times → String → V → Option ℕ → Call V
  delete_call : Times → String → Call V
  clear_pattern_call : ℕ → Times → String → Call V
  clear_expired_call : ℕ → Call V
  close_call : Call V

module _ {ℓ} {V S : Type ℓ} where
  unfoldable pub step : Redis S → Pickle V → Call V → CacheManager V S → CacheManager V S
  unfolding get set delete clear_pattern clear_expired close
  step r p (get_call t key) m = (get r p t key m).1
  step r p (set_call t key value ttl) m = (set r p t key value ttl m).1
  step r p (delete_call t key) m = (delete r t key m).1
  step r p (clear_pattern_call fuel t pattern) m = (clear_pattern fuel r t pattern m).1
  step r p (clear_expired_call now) m = clear_expired now m
  step r p close_call m = close m

  unfoldable pub run : Redis S → Pickle V → List (Call V) → CacheManager V S → CacheManager V S
  run r p [] m = m
  run r p (c ∷ calls) m = run r p calls (step r p c m)

  -- The memory cache of `m'` fits the size that `m` has.
  record Fits (size : ℕ) (m : CacheManager V S) : Type ℓ where
    sized : m.max_memory_cache ≡ size
    fits : length m.memory_cache ≤ max 1 size

  Fits-framed : {size : ℕ} {m m' : CacheManager V S} → Fits size m → IsFramed m m' → Fits size m'
  Fits-framed h f = record { sized = f.size ∙ h.sized; fits = rw f.memory h.fits }

  get_from_memory-Fits :
      (size now : ℕ) (key : String) (m : CacheManager V S)
      → Fits size m
      → Fits size (get_from_memory now key m).1
  unfolding get_from_memory
  get_from_memory-Fits size now key m h = elim (Option-cases (lookup key m.memory_cache)) [
    | inl nothing ↦ simp (get_from_memory, nothing) h
    | inr (item, found) ↦ elim (Bool-cases (ltb now item.expires)) [
      | inl fresh ↦ simp (get_from_memory, found, fresh) h
      | inr old ↦
          simp (get_from_memory, found, old)
            (record {
              sized = h.sized;
              fits = omega (arith, length-remove key m.memory_cache, h.fits);
            })
    ]
  ]

  fall_back-Fits :
      (size now : ℕ) (key : String) (found : Found V) (m : CacheManager V S)
      → Fits size m
      → Fits size (fall_back now key found m).1
  unfolding fall_back
  fall_back-Fits size now key (hit v) m h = h
  fall_back-Fits size now key miss m h = get_from_memory-Fits size now key m h
  fall_back-Fits size now key (breaks e) m h = h

  set_memory_cache-Fits :
      (size now now' : ℕ) (key : String) (value : V) (ttl : ℕ) (m : CacheManager V S)
      → Fits size m
      → Fits size (set_memory_cache now now' key value ttl m)
  unfolding set_memory_cache
  set_memory_cache-Fits size now now' key value ttl m h = record {
    sized = h.sized;
    fits = simp h.sized (
        omega (
          arith,
          length-put key _ (evict size m.memory_cache),
          length-evict size m.memory_cache h.fits,
        ));
  }

  then_in_memory-Fits :
      (size : ℕ) (t : Times) (key : String) (value : V) (ttl : ℕ) (done : Result Bool)
      (m : CacheManager V S)
      → Fits size m
      → Fits size (then_in_memory t key value ttl done m).1
  unfolding then_in_memory
  then_in_memory-Fits size t key value ttl (ok success) m h =
      set_memory_cache-Fits size t.used t.used_again key value ttl m h
  then_in_memory-Fits size t key value ttl (raise e) m h = h
  then_in_memory-Fits size t key value ttl diverges m h = h

  then_delete-Fits :
      (size : ℕ) (key : String) (done : Result Bool) (m : CacheManager V S)
      → Fits size m
      → Fits size (then_delete key done m).1
  unfolding then_delete
  then_delete-Fits size key (ok deleted) m h = record {
    sized = h.sized;
    fits = omega (arith, length-remove key m.memory_cache, h.fits);
  }
  then_delete-Fits size key (raise e) m h = h
  then_delete-Fits size key diverges m h = h

  remove_keys-Fits :
      (size : ℕ) (xs : List (String × Item V)) (m : CacheManager V S)
      → Fits size m
      → Fits size (record m { memory_cache = remove_keys xs m.memory_cache })
  remove_keys-Fits size xs m h = record {
    sized = h.sized;
    fits = omega (arith, length-remove_keys xs m.memory_cache, h.fits);
  }

  then_clear-Fits :
      (size : ℕ) (pattern : String) (done : Result ℕ) (m : CacheManager V S)
      → Fits size m
      → Fits size (then_clear pattern done m).1
  unfolding then_clear
  then_clear-Fits size pattern (ok count) m h = remove_keys-Fits size _ m h
  then_clear-Fits size pattern (raise e) m h = h
  then_clear-Fits size pattern diverges m h = h

  clear_in_redis-IsFramed :
      (fuel : ℕ) (r : Redis S) (pattern : String) (client : Option S) (m : CacheManager V S)
      → IsFramed m (clear_in_redis fuel r pattern client m).1
  unfolding clear_in_redis
  clear_in_redis-IsFramed fuel r pattern none m = IsFramed-refl m
  clear_in_redis-IsFramed fuel r pattern (some s) m = scan_loop-IsFramed fuel r pattern 0 0 s m

  step-Fits :
      (size : ℕ) (r : Redis S) (p : Pickle V) (c : Call V) (m : CacheManager V S)
      → Fits size m
      → Fits size (step r p c m)
  unfolding step
  step-Fits size r p (get_call t key) m h =
      let (client, m') = healthy r t m in
      let (found, m'') = get_from_redis r p key client m' in
      fall_back-Fits size t.used key found m'' (
        Fits-framed (Fits-framed h (healthy-IsFramed r t m))
          (get_from_redis-IsFramed r p key client m'))
  step-Fits size r p (set_call t key value ttl) m h =
      let lifetime = ttl_or ttl m in
      let (client, m') = healthy r t m in
      let (success, m'') = set_in_redis r key lifetime (p.dumps value) client m' in
      then_in_memory-Fits size t key value lifetime success m'' (
        Fits-framed (Fits-framed h (healthy-IsFramed r t m))
          (set_in_redis-IsFramed r key lifetime (p.dumps value) client m'))
  step-Fits size r p (delete_call t key) m h =
      let (client, m') = healthy r t m in
      let (deleted, m'') = delete_in_redis r key client m' in
      then_delete-Fits size key deleted m'' (
        Fits-framed (Fits-framed h (healthy-IsFramed r t m))
          (delete_in_redis-IsFramed r key client m'))
  step-Fits size r p (clear_pattern_call fuel t pattern) m h =
      let (client, m') = healthy r t m in
      let (count, m'') = clear_in_redis fuel r pattern client m' in
      then_clear-Fits size pattern count m'' (
        Fits-framed (Fits-framed h (healthy-IsFramed r t m))
          (clear_in_redis-IsFramed fuel r pattern client m'))
  step-Fits size r p (clear_expired_call now) m h =
      remove_keys-Fits size (selected (λ x. leb x.1.expires now) m.memory_cache) m h
  step-Fits size r p close_call m h = record { sized = h.sized; fits = omega arith }

  run-Fits :
      (size : ℕ) (r : Redis S) (p : Pickle V) (calls : List (Call V)) (m : CacheManager V S)
      → Fits size m
      → Fits size (run r p calls m)
  unfolding run
  run-Fits size r p [] m h = h
  run-Fits size r p (c ∷ calls) m h =
      run-Fits size r p calls (step r p c m) (step-Fits size r p c m h)

  -- Of a new manager, after any calls, of which some may raise, and whatever Redis and `pickle` do: the
  -- memory cache holds at most `max_memory_cache` entries, or one if that is 0.
  pub length-run :
      (r : Redis S) (p : Pickle V) (now ttl max_memory_cache max_retries : ℕ) (client : Option S)
      (calls : List (Call V))
      → length (run r p calls (init now ttl max_memory_cache max_retries client)).memory_cache
        ≤ max 1 max_memory_cache
  unfolding init
  length-run r p now ttl max_memory_cache max_retries client calls =
      let start : Fits max_memory_cache (init now ttl max_memory_cache max_retries client) =
        record { sized = refl; fits = omega arith } in
      (run-Fits max_memory_cache r p calls _ start).fits
