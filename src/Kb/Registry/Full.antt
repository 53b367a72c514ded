-- ===== src/Kb/Registry/Full.antt =====
-- Every synchronization is a full one: no stream is asked for what is new.
use tei_nlp_converter.Base.{
  ℕ, String, Option, none, List, [], ◌∷◌, Dict, get, get-put, string_key, ==_refl, Result, ok,
  raise, diverges, ◌≡◌, refl, Option-cases, inl, inr,
}
use tei_nlp_converter.Kb.Tiers.{KbEntity}
use tei_nlp_converter.Kb.Registry.{Providers, KnowledgeBaseRegistry, update_status}
use tei_nlp_converter.Kb.Registry.Sync.{
  in_progress, cache_batches, sync_types, last_sync_of, sync_from, sync_provider, perform_sync,
}

-- After the update of the status there is no last success.
pub last_sync_nothing {ℓ} :
    {N R E T W : Type ℓ} (p : Providers N R E T W) (start kb_id : String)
    (r : KnowledgeBaseRegistry N R E)
    → last_sync_of p (get kb_id (update_status kb_id (in_progress start) r).sync_status) ≡ ok none
unfolding last_sync_of update_status
last_sync_nothing p start kb_id r =
    rw (get-put kb_id kb_id (in_progress start) r.sync_status, ==_refl kb_id) refl

module _ {ℓ} {N R E T W : Type ℓ} (p : Providers N R E T W)
    (stream : N → String → Option T → W → List (List (KbEntity E)) × W) where
  -- The providers with another way to stream.
  abbrev pub restreamed : Providers N R E T W
  restreamed = record p { stream_entities = stream }

  -- Streams of everything are the same.
  pub record AgreeOnAll : Type ℓ where
    pub on_all : (n : N) (t : String) (w : W) → stream n t none w ≡ p.stream_entities n t none w

  sync_types_full :
      (n : N) (types : List String) (cache : Dict String (KbEntity E)) (total : ℕ) (w : W)
      → AgreeOnAll
      → sync_types restreamed n none types cache total w ≡ sync_types p n none types cache total w
  unfolding sync_types
  sync_types_full n [] cache total w agree = refl
  sync_types_full n (t ∷ types) cache total w agree =
      let (batches, w') = p.stream_entities n t none w in
      let (cache', total') = cache_batches batches cache total in
      rw (sync_types, agree.on_all n t w) (sync_types_full n types cache' total' w' agree)

  sync_from_full :
      (now now' kb_id : String) (n : N) (types : Result (List String))
      (r : KnowledgeBaseRegistry N R E) (w : W)
      → AgreeOnAll
      → sync_from restreamed now now' kb_id n types none r w
        ≡ sync_from p now now' kb_id n types none r w
  unfolding sync_from
  sync_from_full now now' kb_id n (ok types) r w agree =
      rw (sync_from, sync_types_full n types r.lookup_cache 0 w agree) refl
  sync_from_full now now' kb_id n (raise e) r w agree = refl
  sync_from_full now now' kb_id n diverges r w agree = refl

  -- Whatever the registry has done before: a synchronization is the same for two ways to stream that agree
  -- on what they give when no time is asked from, however they differ on what is new since a time.
  pub perform_sync_full :
      (start now now' kb_id : String) (r : KnowledgeBaseRegistry N R E) (w : W)
      → AgreeOnAll
      → perform_sync restreamed start now now' kb_id r w ≡ perform_sync p start now now' kb_id r w
  unfolding perform_sync sync_provider
  perform_sync_full start now now' kb_id r w agree =
      elim (Option-cases (get kb_id (update_status kb_id (in_progress start) r).providers)) [
        | inl unknown ↦ rw (perform_sync, unknown) refl
        | inr (n, found) ↦
            rw (perform_sync, found, last_sync_nothing p start kb_id r)
              (sync_from_full now now' kb_id n (p.get_supported_entity_types n) _ w agree)
      ]
