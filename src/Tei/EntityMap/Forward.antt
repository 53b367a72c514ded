-- ===== src/Tei/EntityMap/Forward.antt =====
-- The entity map of entities that end behind their start.
use tei_nlp_converter.Base.{
  ℕ, ◌<◌, true, none, some, List, [], ◌∷◌, All, get, nat_key, ok, ◌≡◌, ◌≢◌, refl, sym, ◌∙◌, arith,
  map, Option-cases, inl, inr, Settles, Settles-ok, Settles-bind, settles_rules, Returns,
  Returns-bind, Returns-ok, Returns-item,
}
use tei_nlp_converter.Tei.Data.{Entry, dict, not_dict, Settles-dict_of, Entity}
use tei_nlp_converter.Tei.EntityMap.{
  Mark, EntityMap, mark_entity, mark_entities, mark_at, first_mark, build_entity_map,
  get-build_entity_map,
}

-- An entity with a label, which ends behind its start.
pub record IsForward (e : Entity) : Type 0 where
  pub label : e.label ≢ none
  pub from : ℕ
  pub to : ℕ
  pub start : e.start ≡ some from
  pub end : e.end ≡ some to
  pub forward : from < to

-- Where an entity of the map starts, it ends behind.
pub record EndsBehind (p : ℕ) (e : Entity) : Type 0 where
  pub label : e.label ≢ none
  pub to : ℕ
  pub end : e.end ≡ some to
  pub behind : p < to

-- Every entity that the map starts ends behind its start.
abbrev pub StartsForward : EntityMap → Type 0
StartsForward m = (p : ℕ) (k : Mark) → get p m ≡ some k → k.is_start ≡ true → EndsBehind p k.entity

mark_at_start :
    (e : Entity) (s t p : ℕ) (k : Mark)
    → e.start ≡ some s
    → e.end ≡ some t
    → mark_at p e ≡ some k
    → k.is_start ≡ true
    → (k.entity ≡ e) × (p ≡ s)
unfolding mark_at
mark_at_start e s t p k at_s at_t found start = ground arith

mark_at_behind :
    (e : Entity) (p : ℕ) (k : Mark)
    → IsForward e
    → mark_at p e ≡ some k
    → k.is_start ≡ true
    → EndsBehind p k.entity
mark_at_behind e p k f found start =
    let (same, here) = mark_at_start e f.from f.to p k f.start f.end found start in
    rw same (record { label = f.label; to = f.to; end = f.end; behind = omega (arith, f.forward) })

first_mark_behind :
    (es : List Entity) (p : ℕ) (k : Mark)
    → All IsForward es
    → first_mark p (map dict es) ≡ some k
    → k.is_start ≡ true
    → EndsBehind p k.entity
unfolding first_mark
first_mark_behind [] p k h found start = cc
first_mark_behind (e ∷ es) p k h found start = elim (Option-cases (mark_at p e)) [
  | inl nothing ↦ first_mark_behind es p k h.1 (ground arith) start
  | inr (j, here) ↦ mark_at_behind e p k h.0 (ground arith) start
]

mark_entity-Returns :
    (e : Entity) (m : EntityMap) → IsForward e → Returns (λ m'. Unit {0}) (mark_entity e m)
unfolding mark_entity
mark_entity-Returns e m f =
    Returns-bind _ _ (Returns-item "start" e.start (λ h. cc (h, f.start)))
      λ s _. Returns-bind _ _ (Returns-item "end" e.end (λ h. cc (h, f.end))) λ t _. Returns-ok _ tt

mark_entities-Returns :
    (es : List Entity) (m : EntityMap)
    → All IsForward es
    → Returns (λ m'. Unit {0}) (mark_entities (map dict es) m)
unfolding mark_entities
mark_entities-Returns [] m h = Returns-ok _ tt
mark_entities-Returns (e ∷ es) m h = Returns-bind _ _ (Returns-ok {P = λ x. x ≡ e} e refl) λ x same.
    Returns-bind _ _ (mark_entity-Returns x m (rw same h.0)) λ m' _. mark_entities-Returns es m' h.1

-- The map is built, and every entity that it starts ends behind its start.
pub build_entity_map-Returns :
    (es : List Entity) → All IsForward es → Returns StartsForward (build_entity_map (map dict es))
unfolding build_entity_map
build_entity_map-Returns es h =
    let built = mark_entities-Returns es [] h in
    record {
      value = built.value;
      is_ok = built.is_ok;
      good = λ p k found start.
          first_mark_behind es p k h
            (sym (get-build_entity_map (map dict es) p built.is_ok) ∙ found) start;
    }

-- What is not known of an entry does no harm: only an entity with a start and an end has to end later.
abbrev pub EndsLater : Entry Entity → Type 0
EndsLater not_dict = Unit
EndsLater (dict e) = (s t : ℕ) → e.start ≡ some s → e.end ≡ some t → s < t

mark_at_later :
    (e : Entity) (p n : ℕ) (k : Mark)
    → EndsLater (dict e)
    → mark_at p e ≡ some k
    → k.is_start ≡ true
    → k.entity.end ≡ some n
    → p < n
unfolding mark_at
mark_at_later e p n k later found start at_n = elim (Option-cases e.start) [
  | inl no_start ↦ absurd (ground arith)
  | inr (s, at_s) ↦ elim (Option-cases e.end) [
    | inl no_end ↦ absurd (ground arith)
    | inr (t, at_t) ↦ ground (arith, later s t at_s at_t)
  ]
]

first_mark_later :
    (es : List (Entry Entity)) (p n : ℕ) (k : Mark)
    → All EndsLater es
    → first_mark p es ≡ some k
    → k.is_start ≡ true
    → k.entity.end ≡ some n
    → p < n
unfolding first_mark
first_mark_later [] p n k h found start at_n = absurd (cc found)
first_mark_later (not_dict ∷ es) p n k h found start at_n =
    first_mark_later es p n k h.1 found start at_n
first_mark_later (dict e ∷ es) p n k h found start at_n = elim (Option-cases (mark_at p e)) [
  | inl nothing ↦ first_mark_later es p n k h.1 (rw nothing at found) start at_n
  | inr (j, here) ↦ mark_at_later e p n k h.0 (here ∙ (rw here at found)) start at_n
]

-- In a map built from entities that end later, what starts at a position ends behind it.
pub build_entity_map_later :
    (es : List (Entry Entity)) {m : EntityMap} (p n : ℕ) (k : Mark)
    → All EndsLater es
    → build_entity_map es ≡ ok m
    → get p m ≡ some k
    → k.is_start ≡ true
    → k.entity.end ≡ some n
    → p < n
build_entity_map_later es p n k h built found start at_n =
    first_mark_later es p n k h (sym (get-build_entity_map es p built) ∙ found) start at_n

mark_entity-Settles : (e : Entity) (m : EntityMap) → Settles (mark_entity e m)
unfolding mark_entity
mark_entity-Settles e m = search settles_rules

mark_entities-Settles : (es : List (Entry Entity)) (m : EntityMap) → Settles (mark_entities es m)
unfolding mark_entities
mark_entities-Settles [] m = Settles-ok m
mark_entities-Settles (e ∷ es) m =
    Settles-bind _ _ (Settles-dict_of e)
      λ x _. Settles-bind _ _ (mark_entity-Settles x m) λ m' _. mark_entities-Settles es m'

pub build_entity_map-Settles : (es : List (Entry Entity)) → Settles (build_entity_map es)
unfolding build_entity_map
build_entity_map-Settles es = mark_entities-Settles es []
