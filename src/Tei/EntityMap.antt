-- ===== src/Tei/EntityMap.antt =====
-- `_build_entity_map` of tei_converter.py: for each token position the entity that claimed it first.
pub mod Forward
use tei_nlp_converter.Base.{
  ℕ, zero, suc, ◌+◌, ◌-◌, ◌≤◌, ◌<◌, Bool, true, false, ◌&&◌, ◌||◌, Option, none, some, List, [],
  ◌∷◌, Dict, get, put, has_key, get-put, has_key-get, Option-cases, inl, inr, get-has_key, nat_key,
  ◌==◌, leb, ltb, if◌then◌else◌, Result, ok, raise, diverges, item, ◌>>=◌, >>=-ok, ◌≡◌, refl, ◌∙◌,
  arith,
}
use tei_nlp_converter.Tei.Data.{Entry, dict_of, dict, not_dict, Entity}

-- The copy of the entity that the map holds, with its `is_start`.
pub record Mark : Type 0 where
  pub entity : Entity
  pub is_start : Bool

abbrev pub EntityMap : Type 0
EntityMap = Dict ℕ Mark

-- `if p not in entity_map: entity_map[p] = …`
claim : Entity → Bool → ℕ → EntityMap → EntityMap
claim e is_start p m =
    if has_key p m then m else put p (record { entity = e; is_start = is_start }) m

-- The loop over `range(p, p + n)`.
claim_range : Entity → ℕ → ℕ → EntityMap → EntityMap
unfolding claim
claim_range e zero p m = m
claim_range e (suc n) p m = claim_range e n (p + 1) (claim e false p m)

-- One round for an entity; a missing `start` raises before a missing `end`.
mark_entity : Entity → EntityMap → Result EntityMap
unfolding claim claim_range
mark_entity e m = do
  start ← item "start" e.start
  let started = claim e true start m
  end ← item "end" e.end
  ok (claim_range e (end - start) start started)

mark_entities : List (Entry Entity) → EntityMap → Result EntityMap
mark_entities [] m = ok m
mark_entities (e ∷ es) m = do entity ← dict_of e; m' ← mark_entity entity m; mark_entities es m'

unfoldable pub build_entity_map : List (Entry Entity) → Result EntityMap
unfolding mark_entities mark_entity
build_entity_map entities = mark_entities entities []

-- What the map is to hold at `p`: the first entity in the list whose range holds `p` or that starts
-- at `p`, a start exactly where it starts.
mark_at : ℕ → Entity → Option Mark
mark_at p e = elim e.start [
  | none ↦ none
  | some s ↦ elim e.end [
    | none ↦ none
    | some t ↦
        if s == p
        then some (record { entity = e; is_start = true })
        else if leb s p && ltb p t
        then some (record { entity = e; is_start = false })
        else none
  ]
]

abbrev or_else {ℓ} : {A : Type ℓ} → Option A → Option A → Option A
or_else (some a) o = some a
or_else none o = o

pub first_mark : ℕ → List (Entry Entity) → Option Mark
unfolding mark_at
first_mark p [] = none
first_mark p (not_dict ∷ es) = first_mark p es
first_mark p (dict e ∷ es) = or_else (mark_at p e) (first_mark p es)

get-claim :
    (e : Entity) (b : Bool) (p q : ℕ) (m : EntityMap)
    → get q (claim e b p m)
      ≡ or_else (get q m) (if p == q then some (record { entity = e; is_start = b }) else none)
unfolding claim
get-claim e b p q m =
    ground
      (arith, get-put p q (record { entity = e; is_start = b }) m, has_key-get p m, get-has_key p m)

get-claim_range :
    (e : Entity) (n p q : ℕ) (m : EntityMap)
    → get q (claim_range e n p m)
      ≡ or_else (get q m) (
          if leb p q && ltb q (p + n) then some (record { entity = e; is_start = false }) else none)
unfolding claim_range
get-claim_range e zero p q m = ground arith
get-claim_range e (suc n) p q m =
    ground (arith, get-claim_range e n (p + 1) q (claim e false p m), get-claim e false p q m)

get-mark_entity :
    (e : Entity) (m m' : EntityMap) (p : ℕ)
    → mark_entity e m ≡ ok m'
    → get p m' ≡ or_else (get p m) (mark_at p e)
unfolding mark_entity mark_at ◌>>=◌
get-mark_entity e m m' p h = elim (Option-cases e.start) [
  | inl no_start ↦ ground arith
  | inr (s, at_s) ↦ elim (Option-cases e.end) [
    | inl no_end ↦ ground arith
    | inr (t, at_t) ↦
        ground (arith, get-claim_range e (t - s) s p (claim e true s m), get-claim e true s p m)
  ]
]

get-mark_entities :
    (es : List (Entry Entity)) (m m' : EntityMap) (p : ℕ)
    → mark_entities es m ≡ ok m'
    → get p m' ≡ or_else (get p m) (first_mark p es)
unfolding mark_entities first_mark ◌>>=◌
get-mark_entities [] m m' p h = ground arith
get-mark_entities (not_dict ∷ es) m m' p h = cc
get-mark_entities (dict e ∷ es) m m' p h =
    let (m'', first, rest) = >>=-ok (mark_entity e m) (mark_entities es) h in
    ground (arith, get-mark_entity e m m'' p first, get-mark_entities es m'' m' p rest)

-- Where the map is built, a position holds the first entity in the list that covers it or starts
-- there, with `is_start` exactly where that entity starts; other positions hold nothing.
pub get-build_entity_map :
    (es : List (Entry Entity)) {m : EntityMap} (p : ℕ)
    → build_entity_map es ≡ ok m
    → get p m ≡ first_mark p es
unfolding build_entity_map get
get-build_entity_map es {m} p h = get-mark_entities es [] m p h
