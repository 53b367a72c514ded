-- ===== src/Cache/Manager/Writes.antt =====
-- The methods of `CacheManager` that write, and `cache_result`.
use tei_nlp_converter.Base.{
  ℕ, zero, suc, ◌+◌, ◌/◌, max, String, Bool, true, false, not, ◌||◌, Option, none, some, List, [],
  ◌∷◌, Dict, has_key, put, remove, string_key, leb, nat_beq, if◌then◌else◌, length, take, sort,
  replace, contains, Result, ok, raise, diverges,
}
use tei_nlp_converter.Cache.Redis.{
  Redis, Pickle, Dumped, dumped, unpicklable, dump_raises, Ended, returned, exhausted, failed,
  no_attempt,
}
use tei_nlp_converter.Cache.Manager.{
  Item, CacheManager, Times, seconds, no_exception, healthy, call,
}

module _ {ℓ} {V : Type ℓ} where
  -- The order of eviction; every item has a `last_accessed`.
  abbrev pub older : String × Item V → String × Item V → Bool
  older a b = leb a.1.last_accessed b.1.last_accessed

  -- `for key in keys: del d[key]`
  unfoldable pub remove_keys : List (String × Item V) → Dict String (Item V) → Dict String (Item V)
  remove_keys [] d = d
  remove_keys (x ∷ xs) d = remove_keys xs (remove x.0 d)

  -- A full cache loses its oldest tenth, at least one entry.
  unfoldable pub evict : ℕ → Dict String (Item V) → Dict String (Item V)
  unfolding remove_keys
  evict max_memory_cache d =
      if leb max_memory_cache (length d)
      then remove_keys (take (max 1 (max_memory_cache / 10)) (sort older d)) d
      else d

  -- The entries that a clearing removes.
  unfoldable pub selected : (String × Item V → Bool) → Dict String (Item V) → List (String × Item V)
  selected p [] = []
  selected p (x ∷ xs) = let rest = selected p xs in if p x then x ∷ rest else rest

-- How `setex` ends: `success`, or what is not caught.
unfoldable pub stored {κ} : {B : Type κ} → Ended B → Result Bool
stored (returned b) = ok true
stored exhausted = ok false
stored failed = ok false
stored no_attempt = raise no_exception

module _ {ℓ} {V S : Type ℓ} where
  unfoldable pub set_memory_cache : ℕ → ℕ → String → V → ℕ → CacheManager V S → CacheManager V S
  unfolding evict
  set_memory_cache now now' key value ttl m =
      let item : Item V = record {
        value = value;
        expires = now + seconds ttl;
        last_accessed = now';
      } in
      record m { memory_cache = put key item (evict m.max_memory_cache m.memory_cache) }

  -- `ttl or self.ttl`
  abbrev pub ttl_or : Option ℕ → CacheManager V S → ℕ
  ttl_or none m = m.ttl
  ttl_or (some n) m = if nat_beq n 0 then m.ttl else n

  unfoldable pub set_in_redis :
      Redis S → String → ℕ → Dumped → Option S → CacheManager V S → Result Bool × CacheManager V S
  unfolding call stored
  set_in_redis r key ttl bytes none m = (ok false, m)
  set_in_redis r key ttl (dumped bytes) (some s) m =
      let (ended, s', m') = call r (r.setex key ttl bytes) s m in (stored ended, m')
  set_in_redis r key ttl unpicklable (some s) m = (ok false, m)
  set_in_redis r key ttl (dump_raises e) (some s) m = (raise e, m)

  -- Where nothing was raised the memory cache is written, whether Redis was or not.
  unfoldable pub then_in_memory :
      Times → String → V → ℕ → Result Bool → CacheManager V S → Result Bool × CacheManager V S
  unfolding set_memory_cache
  then_in_memory t key value ttl (ok success) m =
      (ok success, set_memory_cache t.used t.used_again key value ttl m)
  then_in_memory t key value ttl (raise e) m = (raise e, m)
  then_in_memory t key value ttl diverges m = (diverges, m)

  unfoldable pub set :
      Redis S
      → Pickle V
      → Times
      → String
      → V
      → Option ℕ
      → CacheManager V S
      → Result Bool × CacheManager V S
  unfolding healthy set_in_redis then_in_memory
  set r p t key value ttl m =
      let lifetime = ttl_or ttl m in
      let (client, m') = healthy r t m in
      let (success, m'') = set_in_redis r key lifetime (p.dumps value) client m' in
      then_in_memory t key value lifetime success m''

  unfoldable pub delete_in_redis :
      Redis S → String → Option S → CacheManager V S → Result Bool × CacheManager V S
  unfolding call
  delete_in_redis r key none m = (ok false, m)
  delete_in_redis r key (some s) m =
      let (ended, s', m') = call r (r.delete (key ∷ [])) s m in
      (
        (elim ended [
          | returned n ↦ ok (not (nat_beq n 0))
          | no_attempt ↦ raise no_exception
          | _ ↦ ok false
        ]),
        m',
      )

  unfoldable pub then_delete :
      String → Result Bool → CacheManager V S → Result Bool × CacheManager V S
  then_delete key (ok deleted) m = (
    ok (has_key key m.memory_cache || deleted),
    record m { memory_cache = remove key m.memory_cache },
  )
  then_delete key (raise e) m = (raise e, m)
  then_delete key diverges m = (diverges, m)

  unfoldable pub delete :
      Redis S → Times → String → CacheManager V S → Result Bool × CacheManager V S
  unfolding healthy delete_in_redis then_delete
  delete r t key m =
      let (client, m') = healthy r t m in
      let (deleted, m'') = delete_in_redis r key client m' in then_delete key deleted m''

  -- The keys of one page of a scan are deleted: how many, or how it ends.
  unfoldable pub delete_page :
      Redis S → List String → S → CacheManager V S → Ended ℕ × S × CacheManager V S
  delete_page r [] s m = (returned 0, s, m)
  delete_page r (k ∷ ks) s m =
      let (ended, s', m') = call r (r.delete (k ∷ ks)) s m in
      (
        (elim ended [
          | returned n ↦ returned (length (k ∷ ks))
          | exhausted ↦ exhausted
          | failed ↦ failed
          | no_attempt ↦ no_attempt
        ]),
        s',
        m',
      )

  -- After the deletion of a page: the next page, from `next` on, or the end of the loop.
  unfoldable pub after_delete :
      (ℕ → ℕ → S → CacheManager V S → Result ℕ × CacheManager V S)
      → ℕ
      → ℕ
      → Ended ℕ
      → S
      → CacheManager V S
      → Result ℕ × CacheManager V S
  after_delete more next count (returned n) s m =
      if nat_beq next 0 then (ok (count + n), m) else more next (count + n) s m
  after_delete more next count exhausted s m = (ok count, m)
  after_delete more next count failed s m = (ok count, m)
  after_delete more next count no_attempt s m = (raise no_exception, m)

  unfoldable pub after_scan :
      (ℕ → ℕ → S → CacheManager V S → Result ℕ × CacheManager V S)
      → Redis S
      → ℕ
      → Ended (ℕ × List String)
      → S
      → CacheManager V S
      → Result ℕ × CacheManager V S
  unfolding delete_page after_delete
  after_scan more r count (returned (next, keys)) s m =
      let (ended, s', m') = delete_page r keys s m in after_delete more next count ended s' m'
  after_scan more r count exhausted s m = (ok count, m)
  after_scan more r count failed s m = (ok count, m)
  after_scan more r count no_attempt s m = (raise no_exception, m)

  -- The loop of `clear_pattern` over the pages, on fuel: the server may give pages for ever.
  unfoldable pub scan_loop :
      ℕ → Redis S → String → ℕ → ℕ → S → CacheManager V S → Result ℕ × CacheManager V S
  unfolding call after_scan
  scan_loop zero r pattern cursor count s m = (diverges, m)
  scan_loop (suc fuel) r pattern cursor count s m =
      let (page, s', m') = call r (r.scan cursor pattern) s m in
      after_scan (scan_loop fuel r pattern) r count page s' m'

  unfoldable pub then_clear : String → Result ℕ → CacheManager V S → Result ℕ × CacheManager V S
  then_clear pattern (ok count) m =
      let gone = selected (λ x. contains (replace b'*' "" pattern) x.0) m.memory_cache in
      (ok (count + length gone), record m { memory_cache = remove_keys gone m.memory_cache })
  then_clear pattern (raise e) m = (raise e, m)
  then_clear pattern diverges m = (diverges, m)

  unfoldable pub clear_in_redis :
      ℕ → Redis S → String → Option S → CacheManager V S → Result ℕ × CacheManager V S
  unfolding scan_loop
  clear_in_redis fuel r pattern none m = (ok 0, m)
  clear_in_redis fuel r pattern (some s) m = scan_loop fuel r pattern 0 0 s m

  unfoldable pub clear_pattern :
      ℕ → Redis S → Times → String → CacheManager V S → Result ℕ × CacheManager V S
  unfolding healthy clear_in_redis then_clear
  clear_pattern fuel r t pattern m =
      let (client, m') = healthy r t m in
      let (count, m'') = clear_in_redis fuel r pattern client m' in then_clear pattern count m''

  unfoldable pub clear_expired : ℕ → CacheManager V S → CacheManager V S
  clear_expired now m = record m {
    memory_cache = remove_keys (selected (λ x. leb x.1.expires now) m.memory_cache) m.memory_cache;
  }

  -- `close`; what the client does then is not seen.
  unfoldable pub close : CacheManager V S → CacheManager V S
  close m = record m { memory_cache = [] }
