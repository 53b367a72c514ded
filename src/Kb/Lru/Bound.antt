-- ===== src/Kb/Lru/Bound.antt =====
-- The cache keeps to its size, and holds no key twice.
use tei_nlp_converter.Base.{
  ℕ, ◌≤◌, ◌<◌, String, List, [], ◌∷◌, get as lookup, has_key, remove, string_key, length, ok, ◌≡◌,
  refl, arith, IsDistinct, IsDistinct-remove, IsDistinct-snoc, length-append, length-remove,
  length-remove_some, get-remove_same, Bool-cases, Option-cases, inl, inr, Returns, Returns-ok,
  Returns-bind, Returns-map, ◌∙◌,
}
use tei_nlp_converter.Kb.Lru.{
  LruCache, init, expired, get, set, delete, clear, Call, get_call, set_call, delete_call,
  clear_call, step, run,
}
use tei_nlp_converter.Kb.Lru.Room.{IsBounded, set-others, set-IsBounded, move_to_end-remove}

module _ {ℓ} {V : Type ℓ} where
  pub get-IsBounded :
      (now : ℕ) (k : String) (c : LruCache V) → IsBounded c → IsBounded (get now k c).1
  unfolding get
  get-IsBounded now k c h = elim (Option-cases (lookup k c.cache)) [
    | inl nothing ↦ rw (get, nothing) (record { distinct = h.distinct; bounded = h.bounded })
    | inr ((v, t), found) ↦
        rw (get, found)
          (elim (Bool-cases (expired now t c.ttl)) [
            | inl old ↦ rw old (record {
              distinct = IsDistinct-remove k c.cache h.distinct;
              bounded = omega (arith, length-remove k c.cache, h.bounded);
            })
            | inr fresh ↦
                rw (fresh, move_to_end-remove k (v, t) c.cache found)
                  (record {
                    distinct =
                        IsDistinct-snoc k (v, t) (remove k c.cache)
                          (get-remove_same k c.cache h.distinct)
                          (IsDistinct-remove k c.cache h.distinct);
                    bounded = omega (
                      arith,
                      length-append (remove k c.cache) ((k, (v, t)) ∷ []),
                      length-remove_some k c.cache (λ n. cc (n, found)),
                      h.bounded,
                    );
                  })
          ])
  ]

  delete-IsBounded : (k : String) (c : LruCache V) → IsBounded c → IsBounded (delete k c)
  unfolding delete
  delete-IsBounded k c h = elim (Bool-cases (has_key k c.cache)) [
    | inl there ↦
        rw (delete, there)
          (record {
            distinct = IsDistinct-remove k c.cache h.distinct;
            bounded = omega (arith, length-remove k c.cache, h.bounded);
          })
    | inr away ↦ rw (delete, away) h
  ]

  -- The size and the lifetime that the cache was made with.
  abbrev pub IsSized : ℕ → ℕ → LruCache V → Type 0
  IsSized maxsize ttl c = (c.maxsize ≡ maxsize) × (c.ttl ≡ ttl)

  pub get-IsSized :
      (now : ℕ) (k : String) (c : LruCache V) → IsSized c.maxsize c.ttl (get now k c).1
  unfolding get
  get-IsSized now k c = ground arith

  delete-IsSized : (k : String) (c : LruCache V) → IsSized c.maxsize c.ttl (delete k c)
  unfolding delete
  delete-IsSized k c = ground arith

  pub set-Returns :
      (now : ℕ) (k : String) (v : V) (c : LruCache V)
      → 0 < c.maxsize
      → IsBounded c
      → Returns (λ c'. IsBounded c' × IsSized c.maxsize c.ttl c') (set now k v c)
  set-Returns now k v c pos h =
      rw (set-others now k v c pos h.distinct)
        (Returns-ok _ (set-IsBounded now k v c pos h, (refl, refl)))

  pub step-Returns :
      (call : Call V) (c : LruCache V)
      → 0 < c.maxsize
      → IsBounded c
      → Returns (λ c'. IsBounded c' × IsSized c.maxsize c.ttl c') (step call c)
  unfolding step clear
  step-Returns (get_call now k) c pos h =
      Returns-ok _ (get-IsBounded now k c h, get-IsSized now k c)
  step-Returns (set_call now k v) c pos h = set-Returns now k v c pos h
  step-Returns (delete_call k) c pos h = Returns-ok _ (delete-IsBounded k c h, delete-IsSized k c)
  step-Returns clear_call c pos h =
      Returns-ok _ (record { distinct = tt; bounded = omega arith }, (refl, refl))

  run-Returns :
      (calls : List (Call V)) (c : LruCache V)
      → 0 < c.maxsize
      → IsBounded c
      → Returns (λ c'. IsBounded c' × IsSized c.maxsize c.ttl c') (run calls c)
  unfolding run
  run-Returns [] c pos h = Returns-ok c (h, (refl, refl))
  run-Returns (call ∷ calls) c pos h =
      Returns-bind _ _ (step-Returns call c pos h) λ c' (h', (same, same')).
        Returns-map (λ c'' (b, (s, s')). (b, (s ∙ same, s' ∙ same')))
          (run-Returns calls c' (rw same pos) h')

  -- Of a new cache with a size above 0: whatever calls of `get`, `set`, `delete` and `clear` are made,
  -- none of them raises; then the cache holds no key twice, and no more keys than its size.
  pub run-bounded :
      (maxsize ttl_seconds : ℕ) (calls : List (Call V))
      → 0 < maxsize
      → (c : LruCache V) × (run calls (init maxsize ttl_seconds) ≡ ok c)
        × IsDistinct c.cache
        × (length c.cache ≤ maxsize)
  unfolding init
  run-bounded maxsize ttl_seconds calls pos =
      let done =
        run-Returns calls (init maxsize ttl_seconds) pos
          (record { distinct = tt; bounded = omega arith }) in
      let (bounded, (same, _)) = done.good in
      (done.value, done.is_ok, bounded.distinct, rw (← same) bounded.bounded)
