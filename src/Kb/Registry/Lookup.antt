-- ===== src/Kb/Registry/Lookup.antt =====
-- A lookup after a synchronization.
use tei_nlp_converter.Base.{
  ℕ, String, none, some, List, [], ◌∷◌, ◌++◌, Dict, get, put, get-put, ◌==◌, string_key, ==_refl,
  ==_ne, ok, ◌≡◌, ◌≢◌, refl, sym, ap, ◌∙◌, Bool-cases, inl, inr, Any, here, there, All, All-Any,
  ==_iff,
}
use tei_nlp_converter.Kb.Tiers.{KbEntity}
use tei_nlp_converter.Kb.Registry.{
  Providers, KnowledgeBaseRegistry, update_status, lookup_with_fallback,
}
use tei_nlp_converter.Kb.Registry.Full.{last_sync_nothing}
use tei_nlp_converter.Kb.Registry.Sync.{
  entity_key, cache_entities, cache_batches, sync_types, sync_from, sync_provider, perform_sync,
}

-- What is in the batches, in their order.
unfoldable pub joined {ℓ} : {A : Type ℓ} → List (List A) → List A
joined [] = []
joined (xs ∷ xss) = xs ++ joined xss

module _ {ℓ} {E : Type ℓ} where
  cache_entities-append :
      (xs ys : List (KbEntity E)) (cache : Dict String (KbEntity E))
      → cache_entities (xs ++ ys) cache ≡ cache_entities ys (cache_entities xs cache)
  unfolding cache_entities
  cache_entities-append [] ys cache = refl
  cache_entities-append (x ∷ xs) ys cache = cache_entities-append xs ys (put (entity_key x) x cache)

  cache_batches-joined :
      (batches : List (List (KbEntity E))) (cache : Dict String (KbEntity E)) (total : ℕ)
      → (cache_batches batches cache total).0 ≡ cache_entities (joined batches) cache
  unfolding cache_batches joined cache_entities
  cache_batches-joined [] cache total = refl
  cache_batches-joined (batch ∷ batches) cache total =
      cache_batches-joined batches (cache_entities batch cache) _
      ∙ sym (cache_entities-append batch (joined batches) cache)

  -- An entity that is found under its own key.
  abbrev IsFound {κ} : (KbEntity E → Type κ) → String → Dict String (KbEntity E) → Type (ℓ ⊔ κ)
  IsFound P key cache = (e : KbEntity E) × (get key cache ≡ some e) × (entity_key e ≡ key) × P e

  cache_entities_keep {κ} :
      (P : KbEntity E → Type κ) (key : String) (es : List (KbEntity E))
      (cache : Dict String (KbEntity E))
      → All P es
      → IsFound P key cache
      → IsFound P key (cache_entities es cache)
  unfolding cache_entities
  cache_entities_keep P key [] cache h found = found
  cache_entities_keep P key (x ∷ es) cache h (e, at, same, p) =
      cache_entities_keep P key es (put (entity_key x) x cache) h.1
        (elim (Bool-cases (entity_key x == key)) [
          | inl same_key ↦ (
            x,
            rw (get-put (entity_key x) key x cache, same_key) refl,
            (==_iff (entity_key x) key).0 same_key,
            h.0,
          )
          | inr other ↦ (e, rw (get-put (entity_key x) key x cache, other) at, same, p)
        ])

  cache_entities_find {κ} :
      (P : KbEntity E → Type κ) (e : KbEntity E) (es : List (KbEntity E))
      (cache : Dict String (KbEntity E))
      → All P es
      → Any (λ x. x ≡ e) es
      → IsFound P (entity_key e) (cache_entities es cache)
  unfolding cache_entities
  cache_entities_find P e [] cache h among = elim among [ ]
  cache_entities_find P e (x ∷ es) cache h (here same) =
      cache_entities_keep P (entity_key e) es (put (entity_key x) x cache) h.1 (
        x,
        rw (get-put (entity_key x) (entity_key e) x cache, same, ==_refl (entity_key e)) refl,
        ap entity_key same,
        h.0,
      )
  cache_entities_find P e (x ∷ es) cache h (there among) =
      cache_entities_find P e es (put (entity_key x) x cache) h.1 among

module _ {ℓ} {N R E T W : Type ℓ} (p : Providers N R E T W) where
  -- What a provider streams of the types, one after the other.
  unfoldable pub streamed : N → List String → W → List (KbEntity E)
  streamed n [] w = []
  streamed n (t ∷ types) w =
      let (batches, w') = p.stream_entities n t none w in joined batches ++ streamed n types w'

  sync_types_cache :
      (n : N) (types : List String) (cache : Dict String (KbEntity E)) (total : ℕ) (w : W)
      → (sync_types p n none types cache total w).0 ≡ cache_entities (streamed n types w) cache
  unfolding sync_types streamed cache_entities
  sync_types_cache n [] cache total w = refl
  sync_types_cache n (t ∷ types) cache total w =
      let (batches, w') = p.stream_entities n t none w in
      let (cache', total') = cache_batches batches cache total in
      sync_types_cache n types cache' total' w'
      ∙ rw (cache_batches-joined batches cache total)
          (sym (cache_entities-append (joined batches) (streamed n types w') cache))

  perform_sync_cache :
      (start now now' kb_id : String) (n : N) (types : List String)
      (r : KnowledgeBaseRegistry N R E) (w : W)
      → get kb_id r.providers ≡ some n
      → p.get_supported_entity_types n ≡ ok types
      → (perform_sync p start now now' kb_id r w).1.lookup_cache
        ≡ cache_entities (streamed n types w) r.lookup_cache
  unfolding perform_sync sync_provider sync_from update_status
  perform_sync_cache start now now' kb_id n types r w known supported =
      rw (perform_sync, known, last_sync_nothing p start kb_id r, supported)
        (sync_types_cache n types r.lookup_cache 0 w)

  -- After the synchronization of a known provider that says its types: for an entity that it streamed,
  -- whose type is not empty, a lookup of the text and type gives an entity that it streamed with the same
  -- cache key, whatever the chain, and asks no provider.
  pub lookup-perform_sync :
      (start now now' kb_id : String) (n : N) (types : List String)
      (r : KnowledgeBaseRegistry N R E) (w v : W) (e : KbEntity E) (chain : List String)
      → get kb_id r.providers ≡ some n
      → p.get_supported_entity_types n ≡ ok types
      → Any (λ x. x ≡ e) (streamed n types w)
      → e.entity_type ≢ ""
      → let synced = (perform_sync p start now now' kb_id r w).1 in
        (found : KbEntity E) × (lookup_with_fallback p e.text chain (some e.entity_type) synced v
          ≡ (ok (some found), synced, v))
        × (entity_key found ≡ entity_key e)
        × Any (λ x. found ≡ x) (streamed n types w)
  unfolding lookup_with_fallback
  lookup-perform_sync start now now' kb_id n types r w v e chain known supported among typed =
      let es = streamed n types w in
      let (found, at, same, from) =
        cache_entities_find (λ x. Any (λ y. x ≡ y) es) e es r.lookup_cache (All-Any es) among in
      let cached =
        ap (get (entity_key e))
          (perform_sync_cache start now now' kb_id n types r w known supported)
        ∙ at in
      (found, rw (lookup_with_fallback, ==_ne e.entity_type "" typed, cached) refl, same, from)
