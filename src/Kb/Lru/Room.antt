-- ===== src/Kb/Lru/Room.antt =====
-- What `set` makes room for: the entries that it keeps, before the new one at the end.
use tei_nlp_converter.Base.{
  ℕ, ◌+◌, ◌≤◌, ◌<◌, String, true, none, some, [], ◌∷◌, ◌++◌, Dict, get as lookup, has_key, remove,
  move_to_end, string_key, leb, if◌then◌else◌, length, drop, ok, ◌>>=◌, ◌≡◌, ◌≢◌, refl, arith,
  IsDistinct, IsDistinct-remove, IsDistinct-snoc, length-append, length-remove_some,
  get-remove_same, get-has_key, has_key-get, put-eq-append, put-move_to_end, Bool-cases,
  Option-cases, inl, inr,
}
use tei_nlp_converter.Kb.Lru.{LruCache, popitem, make_room, set}

module _ {ℓ} {V : Type ℓ} where
  pub record IsBounded (c : LruCache V) : Type ℓ where
    pub distinct : IsDistinct c.cache
    pub bounded : length c.cache ≤ c.maxsize

  -- What `set` writes behind: the other entries, less the first if there is no room.
  unfoldable pub others : String → LruCache V → Dict String (V × ℕ)
  others key c =
      if has_key key c.cache
      then remove key c.cache
      else if leb c.maxsize (length c.cache)
      then drop 1 c.cache
      else c.cache

  has_key-some : (k : String) (d : Dict String (V × ℕ)) → has_key k d ≡ true → lookup k d ≢ none
  has_key-some k d h n = ground (arith, has_key-get k d n)

  get-drop : (k : String) (d : Dict String (V × ℕ)) → lookup k d ≡ none → lookup k (drop 1 d) ≡ none
  unfolding lookup
  get-drop k [] h = refl
  get-drop k (x ∷ d) h = ground arith

  IsDistinct-drop : (d : Dict String (V × ℕ)) → IsDistinct d → IsDistinct (drop 1 d)
  IsDistinct-drop [] h = tt
  IsDistinct-drop (x ∷ d) h = h.1

  length-drop : (d : Dict String (V × ℕ)) → 0 < length d → length (drop 1 d) + 1 ≡ length d
  length-drop [] h = absurd (omega (arith, h))
  length-drop (x ∷ d) h = omega arith

  pub get-others : (k : String) (c : LruCache V) → IsDistinct c.cache → lookup k (others k c) ≡ none
  unfolding others
  get-others k c h =
      ground (arith, get-remove_same k c.cache h, get-has_key k c.cache, get-drop k c.cache)

  IsDistinct-others : (k : String) (c : LruCache V) → IsDistinct c.cache → IsDistinct (others k c)
  unfolding others
  IsDistinct-others k c h = elim (Bool-cases (has_key k c.cache)) [
    | inl there ↦ rw there (IsDistinct-remove k c.cache h)
    | inr new ↦ rw new (elim (Bool-cases (leb c.maxsize (length c.cache))) [
      | inl full ↦ rw full (IsDistinct-drop c.cache h)
      | inr room ↦ rw room h
    ])
  ]

  length-others :
      (k : String) (c : LruCache V)
      → 0 < c.maxsize
      → IsBounded c
      → length (others k c) + 1 ≤ c.maxsize
  unfolding others
  length-others k c pos h =
      ground (
        arith,
        h.bounded,
        length-remove_some k c.cache,
        has_key-some k c.cache,
        length-drop c.cache,
      )

  popitem-drop : (d : Dict String (V × ℕ)) → 0 < length d → popitem d ≡ ok (drop 1 d)
  unfolding popitem
  popitem-drop [] h = absurd (omega (arith, h))
  popitem-drop (x ∷ d) h = refl

  pub move_to_end-remove :
      (k : String) (v : V × ℕ) (d : Dict String (V × ℕ))
      → lookup k d ≡ some v
      → move_to_end k d ≡ remove k d ++ (k, v) ∷ []
  unfolding move_to_end
  move_to_end-remove k v d h = rw (move_to_end, h) refl

  -- In a cache with a size above 0 `set` returns, and the new entry is the last one.
  pub set-others :
      (now : ℕ) (k : String) (v : V) (c : LruCache V)
      → 0 < c.maxsize
      → IsDistinct c.cache
      → set now k v c ≡ ok (record c { cache = others k c ++ (k, (v, now)) ∷ [] })
  unfolding set make_room others ◌>>=◌
  set-others now k v c pos h = elim (Bool-cases (has_key k c.cache)) [
    | inl there ↦ elim (Option-cases (lookup k c.cache)) [
      | inl nothing ↦ absurd (has_key-some k c.cache there nothing)
      | inr (w, found) ↦
          rw
            (
              there,
              move_to_end-remove k w c.cache found,
              put-move_to_end k (v, now) w (remove k c.cache) (get-remove_same k c.cache h),
            )
            refl
    ]
    | inr new ↦ elim (Bool-cases (leb c.maxsize (length c.cache))) [
      | inl full ↦
          rw
            (
              new,
              full,
              popitem-drop c.cache (ground arith),
              put-eq-append k (v, now) (drop 1 c.cache)
                  (get-drop k c.cache (get-has_key k c.cache new)),
            )
            refl
      | inr room ↦ rw (new, room, put-eq-append k (v, now) c.cache (get-has_key k c.cache new)) refl
    ]
  ]

  pub set-IsBounded :
      (now : ℕ) (k : String) (v : V) (c : LruCache V)
      → 0 < c.maxsize
      → IsBounded c
      → IsBounded (record c { cache = others k c ++ (k, (v, now)) ∷ [] })
  set-IsBounded now k v c pos h = record {
    distinct =
        IsDistinct-snoc k (v, now) (others k c) (get-others k c h.distinct)
          (IsDistinct-others k c h.distinct);
    bounded =
        omega (arith, length-append (others k c) ((k, (v, now)) ∷ []), length-others k c pos h);
  }
