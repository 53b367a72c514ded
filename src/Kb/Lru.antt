-- ===== src/Kb/Lru.antt =====
-- `LRUCache` of domain_nlp/knowledge_bases/cache.py: the least recently used key stands first. Times
-- and the lifetime are microseconds; `now` is what `datetime.now()` returns.
pub mod Room
pub mod Bound
pub mod Recency
use tei_nlp_converter.Base.{
  ℕ, ◌+◌, ◌*◌, String, Bool, true, false, Option, none, some, List, [], ◌∷◌, Dict, get as lookup,
  has_key, put, remove, move_to_end, string_key, leb, ltb, if◌then◌else◌, length, drop, Result, ok,
  raise, key_error, ◌>>=◌,
}

pub record LruCache {ℓ} (V : Type ℓ) : Type ℓ where
  pub cache : Dict String (V × ℕ)
  pub maxsize : ℕ
  pub ttl : ℕ
  pub hits : ℕ
  pub misses : ℕ

-- `now - timestamp > ttl`, also for a clock that went back
abbrev pub expired : ℕ → ℕ → ℕ → Bool
expired now timestamp ttl = ltb (timestamp + ttl) now

-- Calls of a cache.
pub data Call {ℓ} (V : Type ℓ) : Type ℓ where
  get_call : ℕ → String → Call V
  set_call : ℕ → String → V → Call V
  delete_call : String → Call V
  clear_call : Call V

module _ {ℓ} {V : Type ℓ} where
  unfoldable pub init : ℕ → ℕ → LruCache V
  init maxsize ttl_seconds = record {
    cache = [];
    maxsize = maxsize;
    ttl = ttl_seconds * 1_000_000;
    hits = 0;
    misses = 0;
  }

  -- A value too old is removed; another one becomes the most recently used.
  unfoldable pub get : ℕ → String → LruCache V → Option V × LruCache V
  get now key c = elim (lookup key c.cache) [
    | none ↦ (none, record c { misses = c.misses + 1 })
    | some (value, timestamp) ↦
        if expired now timestamp c.ttl
        then (none, record c { cache = remove key c.cache; misses = c.misses + 1 })
        else (some value, record c { cache = move_to_end key c.cache; hits = c.hits + 1 })
  ]

  -- `popitem(last=False)`, which raises where there is no item
  popitem : Dict String (V × ℕ) → Result (Dict String (V × ℕ))
  popitem [] = raise (key_error "dictionary is empty")
  popitem (x ∷ d) = ok d

  -- What stands before the assignment in `set`.
  make_room : String → LruCache V → Result (Dict String (V × ℕ))
  unfolding popitem
  make_room key c =
      if has_key key c.cache
      then ok (move_to_end key c.cache)
      else if leb c.maxsize (length c.cache)
      then popitem c.cache
      else ok c.cache

  unfoldable pub set : ℕ → String → V → LruCache V → Result (LruCache V)
  unfolding make_room
  set now key value c = do
    entries ← make_room key c
    ok (record c { cache = put key (value, now) entries })

  pub delete : String → LruCache V → LruCache V
  delete key c = if has_key key c.cache then record c { cache = remove key c.cache } else c

  unfoldable pub clear : LruCache V → LruCache V
  clear c = record c { cache = [] }

  pub step : Call V → LruCache V → Result (LruCache V)
  unfolding get set delete clear
  step (get_call now key) c = ok (get now key c).1
  step (set_call now key value) c = set now key value c
  step (delete_call key) c = ok (delete key c)
  step clear_call c = ok (clear c)

  -- One call after the other; what `get` answers is not kept.
  pub run : List (Call V) → LruCache V → Result (LruCache V)
  run [] c = ok c
  run (call ∷ calls) c = do c' ← step call c; run calls c'
