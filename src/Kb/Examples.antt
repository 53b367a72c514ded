-- ===== src/Kb/Examples.antt =====
-- Tests and instances for domain_nlp/knowledge_bases/cache.py: a cache of two keys that live a second.
use tei_nlp_converter.Base.{false}
use tei_nlp_converter.Base.{
  String, raise, other_error, key_error, Settles-raise, Settles-ok, lower, strip,
}
use tei_nlp_converter.Base.{
  ℕ, ◌≤◌, none, some, List, [], ◌∷◌, ok, ◌≡◌, refl, arith, length, if◌then◌else◌, IsDistinct,
  string_key,
}
use tei_nlp_converter.Kb.Lru.{LruCache, init, expired, get, Call, get_call, set_call, run}
use tei_nlp_converter.Kb.Tiers.{
  KbEntity, Services, MultiTierCacheManager, Call as ManagerCall, get_call as lookup,
  set_call as store,
}
use tei_nlp_converter.Kb.Tiers as Tiers
use tei_nlp_converter.Kb.Tiers.Calls.{IsLive, IsGood, run-IsGood}
use tei_nlp_converter.Kb.Tiers.Reads.{get-set}
use tei_nlp_converter.Kb.Lru.Room.{IsBounded}
use tei_nlp_converter.Kb.Lru.Bound.{run-bounded}
use tei_nlp_converter.Kb.Lru.Recency.{get-run}

abbrev empty : LruCache ℕ
empty = record { cache = []; maxsize = 2; ttl = 1_000_000; hits = 0; misses = 0 }

abbrev calls : List (Call ℕ)
calls = set_call 1 "a" 7 ∷ set_call 2 "b" 8 ∷ get_call 3 "a" ∷ set_call 4 "c" 9 ∷ []

run-bounded_example :
    (c : LruCache ℕ) × (run calls (init 2 1) ≡ ok c) × IsDistinct c.cache × (length c.cache ≤ 2)
run-bounded_example = run-bounded 2 1 calls (omega arith)

empty-IsBounded : IsBounded empty
empty-IsBounded = record { distinct = tt; bounded = omega arith }

get-run_example :
    (c : LruCache ℕ) × (run (set_call 5 "a" 7 ∷ set_call 6 "b" 8 ∷ []) empty ≡ ok c)
    × ((get 9 "a" c).0 ≡ (if expired 9 5 1_000_000 then none else some 7))
get-run_example =
    get-run 5 9 "a" 7 (set_call 6 "b" 8 ∷ []) empty empty-IsBounded (refl, tt) (omega arith)

-- A Redis that is down, an entity that cannot be read back, and a digest that is the key itself.
abbrev services : Services ℕ String
services = record {
  lower = lower;
  hexdigest = λ key. key;
  get = λ key r. raise (other_error "connection refused");
  setex = λ key ttl value r. (raise (other_error "connection refused"), r);
  execute = λ rows r. (ok tt, r);
  dumps = λ e. ok e.text;
  loads = λ value. raise (key_error "kb_id");
}

services-IsLive : IsLive services
services-IsLive = record {
  get = λ key r. Settles-raise _;
  setex = λ key ttl value r. Settles-raise _;
  execute = λ rows r. Settles-ok tt;
  dumps = λ e. Settles-ok _;
  loads = λ value. Settles-raise _;
}

abbrev aspirin : KbEntity ℕ
aspirin = record { kb_id = "umls"; text = "Aspirin"; entity_type = "DRUG"; rest = 4057 }

abbrev drug_calls : List (ManagerCall ℕ)
drug_calls =
    lookup 1 2 "umls" "aspirin " "DRUG" ∷ store 3 aspirin ∷ lookup 4 5 "umls" "aspirin " "DRUG" ∷ []

run-IsGood_example :
    (m : MultiTierCacheManager ℕ String) × (Tiers.run services drug_calls
        (Tiers.init 2 3600 (some "") false)
      ≡ ok m)
    × IsGood m
run-IsGood_example =
    run-IsGood services 2 3600 (some "") false drug_calls services-IsLive (omega arith)

abbrev manager : MultiTierCacheManager ℕ String
manager = record {
  memory_cache = record { cache = []; maxsize = 2; ttl = 1_000_000; hits = 0; misses = 0 };
  redis = some "";
  redis_ttl = 3600;
  db = false;
  l1_hits = 0;
  l2_hits = 0;
  l3_hits = 0;
  total_lookups = 0;
}

manager-IsGood : IsGood manager
manager-IsGood = record {
  roomy = omega arith;
  bounded = record { distinct = tt; bounded = omega arith };
  counted = omega arith;
  no_l3 = refl;
}

aspirin_text : services.lower (strip "aspirin ") ≡ services.lower (strip aspirin.text)
unfolding lower strip
aspirin_text = refl

get-set_example :
    (m' m'' : MultiTierCacheManager ℕ String) × (Tiers.set services 3 aspirin manager ≡ ok m')
    × (Tiers.get services 4 5 "umls" "aspirin " "DRUG" m' ≡ ok (some aspirin, m''))
    × (m''.l1_hits ≡ 1)
get-set_example =
    get-set services 3 4 5 aspirin "aspirin " manager services-IsLive manager-IsGood aspirin_text
      refl
