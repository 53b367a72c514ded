-- ===== src/Kb/Lru/Recency.antt =====
-- What was used last is evicted last: a key outlives fewer uses of other keys than the cache is long.
use tei_nlp_converter.Base.{
  ℕ, ◌+◌, ◌≤◌, ◌<◌, String, false, none, some, List, [], ◌∷◌, ◌++◌, Dict, get as lookup, has_key,
  remove, behind, string_key, ◌==◌, leb, if◌then◌else◌, length, All, ok, ◌≡◌, refl, arith,
  get-remove_ne, get-snoc_other, behind-remove, behind-snoc, behind_last, behind_oldest, Bool-cases,
  Option-cases, inl, inr, Returns, Returns-ok, Returns-bind, Returns-map, Returns-both, get_last,
  ◌∙◌,
}
use tei_nlp_converter.Kb.Lru.{
  LruCache, expired, get, delete, Call, get_call, set_call, delete_call, clear_call, step, run,
}
use tei_nlp_converter.Kb.Lru.Room.{
  IsBounded, others, get-others, set-others, move_to_end-remove, set-IsBounded,
}
use tei_nlp_converter.Kb.Lru.Bound.{step-Returns}

-- A call of `get`, `set` or `delete` for another key.
abbrev pub IsOther {ℓ} : {V : Type ℓ} → String → Call V → Type 0
IsOther k (get_call now j) = (j == k) ≡ false
IsOther k (set_call now j v) = (j == k) ≡ false
IsOther k (delete_call j) = (j == k) ≡ false
IsOther k clear_call = ⊥

module _ {ℓ} {V : Type ℓ} where
  -- The key is there with this entry, and at most `n` keys stand behind it.
  record Holds (k : String) (x : V × ℕ) (n : ℕ) (c : LruCache V) : Type ℓ where
    found : lookup k c.cache ≡ some x
    near : behind k c.cache ≤ n

  Holds-more :
      {k : String} {x : V × ℕ} {n : ℕ} {c : LruCache V} → Holds k x n c → Holds k x (n + 1) c
  Holds-more h = record { found = h.found; near = omega (arith, h.near) }

  Holds-remove :
      (k j : String) (x : V × ℕ) (n : ℕ) (d : Dict String (V × ℕ))
      → (j == k) ≡ false
      → lookup k d ≡ some x
      → behind k d ≤ n
      → (lookup k (remove j d) ≡ some x) × (behind k (remove j d) ≤ n)
  Holds-remove k j x n d other found near =
      (get-remove_ne j k d other ∙ found, omega (arith, behind-remove k j d other, near))

  Holds-snoc :
      (k j : String) (x y : V × ℕ) (n : ℕ) (d : Dict String (V × ℕ))
      → (j == k) ≡ false
      → (lookup k d ≡ some x) × (behind k d ≤ n)
      → (lookup k (d ++ (j, y) ∷ []) ≡ some x) × (behind k (d ++ (j, y) ∷ []) ≤ n + 1)
  Holds-snoc k j x y n d other (found, near) =
      (get-snoc_other k j y d other ∙ found, omega (arith, behind-snoc k j y d other, near))

  Holds-others :
      (k j : String) (x : V × ℕ) (n : ℕ) (c : LruCache V)
      → (j == k) ≡ false
      → n + 1 < c.maxsize
      → Holds k x n c
      → (lookup k (others j c) ≡ some x) × (behind k (others j c) ≤ n)
  unfolding others
  Holds-others k j x n c other room h = elim (Bool-cases (has_key j c.cache)) [
    | inl there ↦ rw there (Holds-remove k j x n c.cache other h.found h.near)
    | inr new ↦ elim (Bool-cases (leb c.maxsize (length c.cache))) [
      | inl full ↦
          let (same, same') = behind_oldest k c.cache (ground (arith, h.near)) in
          rw (new, full) (same ∙ h.found, omega (arith, same', h.near))
      | inr free ↦ rw (new, free) (h.found, h.near)
    ]
  ]

  Holds-get :
      (now : ℕ) (k j : String) (x : V × ℕ) (n : ℕ) (c : LruCache V)
      → (j == k) ≡ false
      → Holds k x n c
      → Holds k x (n + 1) (get now j c).1
  unfolding get
  Holds-get now k j x n c other h = elim (Option-cases (lookup j c.cache)) [
    | inl nothing ↦ rw (get, nothing) (record { found = h.found; near = omega (arith, h.near) })
    | inr ((v, t), there) ↦
        let removed = Holds-remove k j x n c.cache other h.found h.near in
        let moved = Holds-snoc k j x (v, t) n (remove j c.cache) other removed in
        rw (get, there)
          (elim (Bool-cases (expired now t c.ttl)) [
            | inl old ↦ rw old (record { found = removed.0; near = omega (arith, removed.1) })
            | inr fresh ↦
                rw (fresh, move_to_end-remove j (v, t) c.cache there)
                  (record { found = moved.0; near = moved.1 })
          ])
  ]

  Holds-delete :
      (k j : String) (x : V × ℕ) (n : ℕ) (c : LruCache V)
      → (j == k) ≡ false
      → Holds k x n c
      → Holds k x (n + 1) (delete j c)
  unfolding delete
  Holds-delete k j x n c other h =
      let removed = Holds-remove k j x n c.cache other h.found h.near in
      elim (Bool-cases (has_key j c.cache)) [
        | inl there ↦
            rw (delete, there) (record { found = removed.0; near = omega (arith, removed.1) })
        | inr away ↦ rw (delete, away) (Holds-more h)
      ]

  step-Holds :
      (k : String) (x : V × ℕ) (n : ℕ) (call : Call V) (c : LruCache V)
      → IsOther k call
      → n + 1 < c.maxsize
      → Holds k x n c
      → IsBounded c
      → Returns (Holds k x (n + 1)) (step call c)
  unfolding step
  step-Holds k x n (get_call now j) c other room h b =
      Returns-ok _ (Holds-get now k j x n c other h)
  step-Holds k x n (set_call now j v) c other room h b =
      let (found, near) =
        Holds-snoc k j x (v, now) n (others j c) other (Holds-others k j x n c other room h) in
      rw (step, set-others now j v c (omega arith) b.distinct)
        (Returns-ok _ (record { found = found; near = near }))
  step-Holds k x n (delete_call j) c other room h b = Returns-ok _ (Holds-delete k j x n c other h)
  step-Holds k x n clear_call c other room h b = absurd other

  run-Holds :
      (k : String) (x : V × ℕ) (n : ℕ) (calls : List (Call V)) (c : LruCache V)
      → All (IsOther k) calls
      → n + length calls < c.maxsize
      → Holds k x n c
      → IsBounded c
      → Returns (λ c'. (lookup k c'.cache ≡ some x) × (c'.ttl ≡ c.ttl)) (run calls c)
  unfolding run
  run-Holds k x n [] c other room h b = Returns-ok c (h.found, refl)
  run-Holds k x n (call ∷ calls) c other room h b =
      Returns-bind _ _
        (Returns-both (step-Holds k x n call c other.0 (omega arith) h b)
          (step-Returns call c (omega arith) b))
        λ c' (h', (b', (same, same'))).
          Returns-map (λ c'' (found, s). (found, s ∙ same'))
            (run-Holds k x (n + 1) calls c' other.1 (omega (arith, same)) h' b')

  pub get_found :
      (now t : ℕ) (k : String) (v : V) (c : LruCache V)
      → lookup k c.cache ≡ some (v, t)
      → (get now k c).0 ≡ (if expired now t c.ttl then none else some v)
  unfolding get
  get_found now t k v c found = ground arith

  -- In a bounded cache, a value that `set` has written outlives fewer calls of `get`, `set` or
  -- `delete` for other keys than the cache has places: none of the calls raises, and `get` then
  -- answers the value, unless it has outlived its time.
  pub get-run :
      (now now' : ℕ) (k : String) (v : V) (calls : List (Call V)) (c : LruCache V)
      → IsBounded c
      → All (IsOther k) calls
      → length calls < c.maxsize
      → (c' : LruCache V) × (run (set_call now k v ∷ calls) c ≡ ok c')
        × ((get now' k c').0 ≡ (if expired now' now c.ttl then none else some v))
  unfolding run step
  get-run now now' k v calls c b other room = (done.value, done.is_ok, done.good)
    where
      written : LruCache V
      written = record c { cache = others k c ++ (k, (v, now)) ∷ [] }

      placed : Holds k (v, now) 0 written
      placed = record {
        found = get_last k (v, now) (others k c) (get-others k c b.distinct);
        near = omega (arith, behind_last k (v, now) (others k c) (get-others k c b.distinct));
      }

      wrote : Returns (λ c'. c' ≡ written) (step (set_call now k v) c)
      wrote = rw (step, set-others now k v c (omega arith) b.distinct) (Returns-ok written refl)

      done :
          Returns
            (λ c'. (get now' k c').0 ≡ (if expired now' now c.ttl then none else some v))
            (run (set_call now k v ∷ calls) c)
      done = Returns-bind _ _ wrote λ c' same.
          Returns-map
            (λ c'' (found, lives). get_found now' now k v c'' found ∙ rw (lives, same) refl)
            (run-Holds k (v, now) 0 calls c' other (rw same (omega (arith, room))) (rw same placed)
              (rw same (set-IsBounded now k v c (omega arith) b)))
