-- ===== src/Kb/Tiers/Reads.antt =====
-- An entity that was stored is found in the memory, under any spelling of its text.
use Prim.Native.String.{◌++◌}
use tei_nlp_converter.Base.{
  ℕ, ◌+◌, ◌<◌, String, false, some, string_key, ok, ◌≡◌, refl, ap, ◌∙◌, strip, get_last, Returns,
  Returns-ok, Returns-bind,
}
use tei_nlp_converter.Kb.Lru.{LruCache, expired}
use tei_nlp_converter.Kb.Lru as Lru
use tei_nlp_converter.Kb.Lru.Room.{IsBounded, others, get-others, set-others}
use tei_nlp_converter.Kb.Lru.Recency.{get_found}
use tei_nlp_converter.Kb.Tiers.{
  KbEntity, Services, MultiTierCacheManager, make_key, key_of, promote, look_in_memory, get, set,
}
use tei_nlp_converter.Kb.Tiers.Calls.{IsLive, IsGood, with_redis-Returns, set_in_redis-Returns}

stored {ℓ} :
    {V : Type ℓ} (now t : ℕ) (key : String) (v : V) (c : LruCache V)
    → 0 < c.maxsize
    → IsBounded c
    → expired t now c.ttl ≡ false
    → Returns (λ c'. (Lru.get t key c').0 ≡ some v) (Lru.set now key v c)
stored now t key v c roomy b fresh = rw (set-others now key v c roomy b.distinct) (
    Returns-ok _ (
      get_found t now key v _ (get_last key (v, now) (others key c) (get-others key c b.distinct))
      ∙ rw fresh refl))

module _ {ℓ} {R S : Type ℓ} where
  same_key :
      (s : Services R S) (e : KbEntity R) (text : String)
      → s.lower (strip text) ≡ s.lower (strip e.text)
      → make_key s e.kb_id text e.entity_type ≡ key_of s e
  unfolding key_of make_key
  same_key s e text h = ap (λ x. s.hexdigest (e.kb_id ++ (":" ++ (e.entity_type ++ (":" ++ x))))) h

  -- What the lookup of an entity gives that the memory holds.
  Answers : Services R S → ℕ → ℕ → KbEntity R → String → ℕ → MultiTierCacheManager R S → Type ℓ
  Answers s t t' e text hits m' =
      (m'' : MultiTierCacheManager R S) × (get s t t' e.kb_id text e.entity_type m'
        ≡ ok (some e, m''))
      × (m''.l1_hits ≡ hits + 1)

  get_stored :
      (s : Services R S) (t t' : ℕ) (e : KbEntity R) (text : String)
      (m' : MultiTierCacheManager R S)
      → make_key s e.kb_id text e.entity_type ≡ key_of s e
      → (Lru.get t (key_of s e) m'.memory_cache).0 ≡ some e
      → Answers s t t' e text m'.l1_hits m'
  unfolding get look_in_memory Answers
  get_stored s t t' e text m' same found = rw (same, found) (_, refl, refl)

  -- After `set`, `get` answers the entity from the memory while it has not outlived its time: under its
  -- own text or one that is the same after `strip` and `lower`, whatever Redis
  -- does as long as it comes back, in a manager in a good state.
  pub get-set :
      (s : Services R S) (now t t' : ℕ) (e : KbEntity R) (text : String)
      (m : MultiTierCacheManager R S)
      → IsLive s
      → IsGood m
      → s.lower (strip text) ≡ s.lower (strip e.text)
      → expired t now m.memory_cache.ttl ≡ false
      → (m' m'' : MultiTierCacheManager R S) × (set s now e m ≡ ok m')
        × (get s t t' e.kb_id text e.entity_type m' ≡ ok (some e, m''))
        × (m''.l1_hits ≡ m.l1_hits + 1)
  unfolding set promote Answers
  get-set s now t t' e text m live good same fresh =
      let (m'', answer, hits) = done.good in (done.value, m'', done.is_ok, answer, hits)
    where
      Memory : MultiTierCacheManager R S → Type ℓ
      Memory m' = ((Lru.get t (key_of s e) m'.memory_cache).0 ≡ some e) × (m'.l1_hits ≡ m.l1_hits)

      promoted : Returns Memory (promote now (key_of s e) e m)
      promoted =
          Returns-bind _ _
            (stored now t (key_of s e) e m.memory_cache good.roomy good.bounded fresh)
            λ c found. Returns-ok _ (found, refl)

      done : Returns (Answers s t t' e text m.l1_hits) (set s now e m)
      done = Returns-bind _ _ promoted λ m' (found, hits).
          Returns-bind _ _
            (with_redis-Returns _ m.redis (set_in_redis-Returns s live m.redis_ttl (key_of s e) e))
            λ redis _. Returns-ok _ (
              rw (← hits) (
                get_stored s t t' e text (record m' { redis = redis }) (same_key s e text same)
                  found))
