-- ===== src/Cache/Manager/Wrap.antt =====
-- `cache_result`, `_generate_cache_key` and `warmup` of cache_manager.py.
use Prim.Native.String.{◌++◌}
use tei_nlp_converter.Base.{
  ℕ, ◌+◌, ◌<◌, String, Bool, true, false, Option, none, some, List, [], ◌∷◌, if◌then◌else◌, ltb,
  Result, ok, raise, diverges, Exc, ◌≡◌, ◌≢◌, refl, ap, ◌∙◌, arith,
}
use tei_nlp_converter.Cache.Redis.{Redis, Pickle, dump_raises}
use tei_nlp_converter.Cache.Manager.{
  CacheManager, Times, seconds, Found, hit, miss, breaks, healthy, get_from_redis, get_from_memory,
  fall_back, get,
}
use tei_nlp_converter.Cache.Manager.Frame.{healthy-IsFramed, get_from_redis-IsFramed}
use tei_nlp_converter.Cache.Manager.Writes.{set, ttl_or}
use tei_nlp_converter.Cache.Manager.Fallback.{IsDown, get-set_down}

-- `str` of a tuple of arguments and of sorted keyword arguments, and the digest.
pub record Printer {ℓ} (A : Type ℓ) : Type ℓ where
  pub show_args : List A → String
  pub show_kwargs : List (String × A) → String
  pub hexdigest : String → String

-- `args[1:] if args and hasattr(args[0], '__class__') else args`: every object has a class.
abbrev pub args_to_use {ℓ} : {A : Type ℓ} → List A → List A
args_to_use [] = []
args_to_use (a ∷ args) = args

-- The keyword arguments, sorted, if there are any.
kwargs_part {ℓ} : {A : Type ℓ} → Printer A → List (String × A) → String
kwargs_part p [] = ""
kwargs_part p (k ∷ kwargs) = ":" ++ p.show_kwargs (k ∷ kwargs)

unfoldable pub generate_cache_key {ℓ} :
    {A : Type ℓ} → Printer A → String → String → List A → List (String × A) → String
unfolding kwargs_part
generate_cache_key p prefix func_name args kwargs =
    let parts =
      prefix
      ++ (":"
          ++ (func_name ++ (":" ++ (p.show_args (args_to_use args) ++ kwargs_part p kwargs)))) in
    prefix ++ (":" ++ (func_name ++ (":" ++ p.hexdigest parts)))

module _ {ℓ} {V S : Type ℓ} where
  fall_back-settings :
      (now : ℕ) (key : String) (found : Found V) (m : CacheManager V S)
      → ((fall_back now key found m).1.max_retries ≡ m.max_retries)
        × ((fall_back now key found m).1.ttl ≡ m.ttl)
  unfolding fall_back get_from_memory
  fall_back-settings now key (hit v) m = (refl, refl)
  fall_back-settings now key miss m = ground arith
  fall_back-settings now key (breaks e) m = (refl, refl)

  get-settings :
      (r : Redis S) (p : Pickle V) (t : Times) (key : String) (m : CacheManager V S)
      → ((get r p t key m).1.max_retries ≡ m.max_retries) × ((get r p t key m).1.ttl ≡ m.ttl)
  unfolding get
  get-settings r p t key m =
      let (client, m') = healthy r t m in
      let (found, m'') = get_from_redis r p key client m' in
      let to = healthy-IsFramed r t m in
      let on = get_from_redis-IsFramed r p key client m' in
      let (retries, lifetime) = fall_back-settings t.used key found m'' in
      (retries ∙ on.retries ∙ to.retries, lifetime ∙ on.lifetime ∙ to.lifetime)

ttl_or_same {ℓ} :
    {V S : Type ℓ} (ttl : Option ℕ) (m m' : CacheManager V S)
    → m.ttl ≡ m'.ttl
    → ttl_or ttl m ≡ ttl_or ttl m'
ttl_or_same none m m' e = e
ttl_or_same (some n) m m' e = rw e refl

module _ {ℓ} {V S W : Type ℓ} where
  -- `warmup` at one key: what the function or `set` raises is caught.
  warm_fetched :
      Redis S
      → Pickle V
      → (V → Bool)
      → Times
      → String
      → Result V
      → CacheManager V S
      → W
      → Result ℕ × CacheManager V S × W
  warm_fetched r p truthy t key (ok value) m w =
      if truthy value
      then (let (stored, m') = set r p t key value none m in
          ((elim stored [ ok success ↦ ok 1 | raise e ↦ ok 0 | diverges ↦ diverges ]), m', w))
      else (ok 0, m, w)
  warm_fetched r p truthy t key (raise e) m w = (ok 0, m, w)
  warm_fetched r p truthy t key diverges m w = (diverges, m, w)

  warm_found :
      Redis S
      → Pickle V
      → (V → Bool)
      → Times
      → String
      → (W → Result V × W)
      → Result (Option V)
      → CacheManager V S
      → W
      → Result ℕ × CacheManager V S × W
  unfolding warm_fetched
  warm_found r p truthy t key fetch (ok none) m w =
      let (value, w') = fetch w in warm_fetched r p truthy t key value m w'
  warm_found r p truthy t key fetch (ok (some found)) m w =
      let (value, w') = fetch w in
      if truthy found then (ok 0, m, w) else warm_fetched r p truthy t key value m w'
  warm_found r p truthy t key fetch (raise e) m w = (raise e, m, w)
  warm_found r p truthy t key fetch diverges m w = (diverges, m, w)

  -- `warmup`: how many keys were loaded; what `get` raises is not caught.
  pub warmup :
      Redis S
      → Pickle V
      → (V → Bool)
      → (String → W → Result V × W)
      → List (String × Times × Times)
      → CacheManager V S
      → W
      → Result ℕ × CacheManager V S × W
  unfolding warm_found
  warmup r p truthy fetch [] m w = (ok 0, m, w)
  warmup r p truthy fetch ((key, t, t') ∷ keys) m w =
      let (found, m') = get r p t key m in
      let (warmed, m'', w') = warm_found r p truthy t' key (fetch key) found m' w in
      let (others, m''', w'') = warmup r p truthy fetch keys m'' w' in
      elim warmed [
        | ok n ↦ (
          (elim others [ ok k ↦ ok (n + k) | raise e ↦ raise e | diverges ↦ diverges ]),
          m''',
          w'',
        )
        | raise e ↦ (raise e, m'', w')
        | diverges ↦ (diverges, m'', w')
      ]

  -- The value is stored; what `set` raises is raised.
  store :
      Redis S
      → Pickle V
      → Times
      → String
      → Option ℕ
      → Result V
      → CacheManager V S
      → W
      → Result V × CacheManager V S × W
  store r p t key ttl (ok value) m w =
      let (stored, m') = set r p t key value ttl m in
      ((elim stored [ ok success ↦ ok value | raise e ↦ raise e | diverges ↦ diverges ]), m', w)
  store r p t key ttl (raise e) m w = (raise e, m, w)
  store r p t key ttl diverges m w = (diverges, m, w)

  -- After the lookup: a value that is not `None` is the result, and the function is not called.
  after_get :
      Redis S
      → Pickle V
      → (V → Bool)
      → Times
      → String
      → Option ℕ
      → (W → Result V × W)
      → Result (Option V)
      → CacheManager V S
      → W
      → Result V × CacheManager V S × W
  unfolding store
  after_get r p is_none t key ttl func (ok (some value)) m w =
      let (result, w') = func w in
      if is_none value then store r p t key ttl result m w' else (ok value, m, w)
  after_get r p is_none t key ttl func (ok none) m w =
      let (result, w') = func w in store r p t key ttl result m w'
  after_get r p is_none t key ttl func (raise e) m w = (raise e, m, w)
  after_get r p is_none t key ttl func diverges m w = (diverges, m, w)

  -- `sync_wrapper` for the key of its arguments; `async_wrapper` counts hits and misses besides.
  pub wrapper :
      Redis S
      → Pickle V
      → (V → Bool)
      → Times
      → Times
      → String
      → Option ℕ
      → (W → Result V × W)
      → CacheManager V S
      → W
      → Result V × CacheManager V S × W
  unfolding after_get
  wrapper r p is_none t t' key ttl func m w =
      let (cached, m') = get r p t key m in after_get r p is_none t' key ttl func cached m' w

  -- The first call, at which nothing is found.
  wrapper_first :
      (r : Redis S) (p : Pickle V) (is_none : V → Bool) (t t' : Times) (key : String)
      (ttl : Option ℕ) (func : W → Result V × W) (m : CacheManager V S) (w w' : W) (value : V)
      → (get r p t key m).0 ≡ ok none
      → func w ≡ (ok value, w')
      → (success : Bool) → (set r p t' key value ttl (get r p t key m).1).0 ≡ ok success
      → wrapper r p is_none t t' key ttl func m w
        ≡ (ok value, (set r p t' key value ttl (get r p t key m).1).1, w')
  unfolding wrapper after_get store
  wrapper_first r p is_none t t' key ttl func m w w' value nothing called success stored =
      rw (wrapper, nothing, called, stored) refl

  -- A call at which a value is found.
  wrapper_found :
      (r : Redis S) (p : Pickle V) (is_none : V → Bool) (t t' : Times) (key : String)
      (ttl : Option ℕ) (func : W → Result V × W) (m : CacheManager V S) (w : W) (value : V)
      → (get r p t key m).0 ≡ ok (some value)
      → is_none value ≡ false
      → wrapper r p is_none t t' key ttl func m w ≡ (ok value, (get r p t key m).1, w)
  unfolding wrapper after_get
  wrapper_found r p is_none t t' key ttl func m w value found there =
      rw (wrapper, after_get, found, there) refl

  -- While no read of Redis succeeds, with at least one retry and a value that `pickle` takes or refuses and
  -- that is not `None`: once a decorated function has been called with the arguments `a ∷ args`, nothing was
  -- cached and it gave the value, then within the lifetime a call with any other first argument gives that
  -- value too, and the function is not called.
  pub wrapper_mixes_arguments :
      {A : Type ℓ} (pr : Printer A) (prefix name : String) (a b : A) (args : List A)
      (kwargs : List (String × A)) (r : Redis S) (p : Pickle V) (is_none : V → Bool)
      (t t' u u' : Times) (ttl : Option ℕ) (func other : W → Result V × W) (m : CacheManager V S)
      (w w' v : W) (value : V)
      → IsDown r
      → 0 < m.max_retries
      → ((e : Exc) → p.dumps value ≢ dump_raises e)
      → is_none value ≡ false
      → (get r p t (generate_cache_key pr prefix name (a ∷ args) kwargs) m).0 ≡ ok none
      → func w ≡ (ok value, w')
      → ltb u.used (t'.used + seconds (ttl_or ttl m)) ≡ true
      → let called =
          wrapper r p is_none t t'
            (generate_cache_key pr prefix name (a ∷ args) kwargs)
            ttl
            func
            m
            w in
        let again =
          wrapper r p is_none u u'
            (generate_cache_key pr prefix name (b ∷ args) kwargs)
            ttl
            other
            called.1
            v in
        (called.0 ≡ ok value) × (again.0 ≡ ok value) × (again.2 ≡ v)
  unfolding generate_cache_key
  wrapper_mixes_arguments pr prefix name a b args kwargs r p is_none t t' u u' ttl func other m w w'
        v value down tries fine there nothing called fresh =
      let key = generate_cache_key pr prefix name (a ∷ args) kwargs in
      let m' = (get r p t key m).1 in
      let (retries, lifetime) = get-settings r p t key m in
      let (success, stored, answer) =
        get-set_down r p t' u key value ttl m' down (rw retries tries) fine in
      let first =
        wrapper_first r p is_none t t' key ttl func m w w' value nothing called success stored in
      let fresh' : ltb u.used (t'.used + seconds (ttl_or ttl m')) ≡ true =
        rw (ttl_or_same ttl m' m lifetime) fresh in
      let second =
        wrapper_found r p is_none u u' key ttl other (set r p t' key value ttl m').1 v value
          (answer ∙ rw fresh' refl) there in
      (ap (λ x. x.0) first, rw first (ap (λ x. x.0) second), rw first (ap (λ x. x.2) second))
