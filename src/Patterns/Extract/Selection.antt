-- ===== src/Patterns/Extract/Selection.antt =====
-- What the extraction promises: the matches are selected greedily by the priority of their patterns.
use tei_nlp_converter.Base.{
  ℕ, ◌≤◌, String, List, [], ◌∷◌, string_key, sort, ◌≡◌, refl, sym, ap, subst, arith, All, Any,
  All-map, Any-map, All-Any, IsSorted, sort-IsSorted, All-sort, All-unsort, Any-sort,
}
use tei_nlp_converter.Patterns.{Engine, PatternRule, StructuredEntity, DomainPatternMatcher}
use tei_nlp_converter.Patterns.Extract.{
  Floats, rank, by_priority, Found, starts_before, entity_of, add_matches, matches_of, add_patterns,
  extract_structured_data,
}
use tei_nlp_converter.Patterns.Extract.Clash.{IsApart, IsApart-sort, Takes}
use tei_nlp_converter.Patterns.Extract.Loop.{
  IsGood, add_matches-IsGood, add_matches_take, All-add_matches, Any-add_matches,
}

module _ {ℓ κ} {P : Type ℓ} {F : Type κ} (engine : Engine P) (floats : Floats F)
    (matcher : DomainPatternMatcher P) (text : String) where
  -- The entity is one that a match of a pattern of the list gives.
  abbrev pub IsFrom : List (String × PatternRule) → StructuredEntity F → Type κ
  IsFrom rules e =
      Any
        (λ r.
          Any (λ m. entity_of engine floats matcher.domain r.0 r.1 m ≡ e)
            (matches_of engine matcher text r.0))
        rules

  -- Every match of the patterns has its place taken by an entity of no lower priority.
  abbrev pub AreTaken : List (String × PatternRule) → List (StructuredEntity F) → Type κ
  AreTaken rules es =
      All (λ r. All (λ m. Any (Takes m r.1.priority) es) (matches_of engine matcher text r.0)) rules

  -- The abstract specification: which entities may be extracted.
  pub record IsSelection (es : List (StructuredEntity F)) : Type κ where
    pub sorted : IsSorted starts_before es
    pub apart : IsApart es
    pub sound : All (IsFrom matcher.patterns) es
    pub greedy : AreTaken matcher.patterns es

  Any-add_patterns {μ} :
      {Q : StructuredEntity F → Type μ} (rules : List (String × PatternRule)) (found : Found F)
      → Any Q found.entities
      → Any Q (add_patterns engine floats matcher text rules found).entities
  unfolding add_patterns
  Any-add_patterns [] found h = h
  Any-add_patterns ((name, rule) ∷ rules) found h = Any-add_patterns rules _ (
      Any-add_matches engine floats matcher.domain name rule (matches_of engine matcher text name)
        found h)

  All-add_patterns {μ} :
      (Q : StructuredEntity F → Type μ) (rules : List (String × PatternRule)) (found : Found F)
      → All
          (λ r.
            All
              (λ m. Q (entity_of engine floats matcher.domain r.0 r.1 m))
              (matches_of engine matcher text r.0))
          rules
      → All Q found.entities
      → All Q (add_patterns engine floats matcher text rules found).entities
  unfolding add_patterns
  All-add_patterns Q [] found q h = h
  All-add_patterns Q ((name, rule) ∷ rules) found q h = All-add_patterns Q rules _ q.1 (
      All-add_matches engine floats matcher.domain Q name rule (matches_of engine matcher text name)
        found q.0 h)

  IsGood-weaken : {b b' : ℕ} {found : Found F} → b ≤ b' → IsGood b found → IsGood b' found
  IsGood-weaken {found} less good = record {
    seen = good.seen;
    apart = good.apart;
    ranked = All-map found.entities (λ e h. omega (arith, h, less)) good.ranked;
  }

  add_patterns-AreTaken :
      (b : ℕ) (rules : List (String × PatternRule)) (found : Found F)
      → IsSorted by_priority rules
      → All (λ r. b ≤ rank r.1.priority) rules
      → IsGood b found
      → IsApart (add_patterns engine floats matcher text rules found).entities
        × AreTaken rules (add_patterns engine floats matcher text rules found).entities
  unfolding add_patterns
  add_patterns-AreTaken b [] found sorted above good = (good.apart, tt)
  add_patterns-AreTaken b ((name, rule) ∷ rules) found sorted above good =
      let ms = matches_of engine matcher text name in
      let start = IsGood-weaken above.0 good in
      let next = add_matches engine floats matcher.domain name rule ms found in
      let (apart, taken) =
        add_patterns-AreTaken (rank rule.priority) rules next sorted.1
          (All-map rules (λ r h. ground (arith, h)) sorted.0)
          (add_matches-IsGood engine floats matcher.domain name rule ms found start) in
      (
        apart,
        (
          All-map ms (λ m h. Any-add_patterns rules next h)
              (add_matches_take engine floats matcher.domain name rule ms found start),
          taken,
        ),
      )

  -- Every match of the patterns gives an entity that is from them.
  IsFrom-matches :
      All
        (λ r.
          All
            (λ m. IsFrom matcher.patterns (entity_of engine floats matcher.domain r.0 r.1 m))
            (matches_of engine matcher text r.0))
        matcher.patterns
  IsFrom-matches =
      All-map matcher.patterns
        (λ r at.
          All-map (matches_of engine matcher text r.0)
            (λ m among.
              Any-map
                (λ r' same.
                  subst
                    (λ r'.
                      Any
                        (λ m'.
                          entity_of engine floats matcher.domain r'.0 r'.1 m'
                          ≡ entity_of engine floats matcher.domain r.0 r.1 m)
                        (matches_of engine matcher text r'.0))
                    same
                    (Any-map
                      (λ m' same'. ap (entity_of engine floats matcher.domain r.0 r.1) (sym same'))
                      among))
                at)
            (All-Any (matches_of engine matcher text r.0)))
        (All-Any matcher.patterns)

  -- Whatever the patterns and the text: the extracted entities are sorted by their starts; no two of them
  -- have the same span or overlap; each is made from a match, in the text, of a compiled pattern; and for
  -- each such match, some extracted entity of a pattern of the same or a higher priority has its span or
  -- overlaps it.
  pub extract_structured_data-IsSelection :
      IsSelection (extract_structured_data engine floats matcher text)
  unfolding extract_structured_data
  extract_structured_data-IsSelection =
      let rules = sort by_priority matcher.patterns in
      let empty : Found F = record { entities = []; seen_spans = [] } in
      let found = add_patterns engine floats matcher text rules empty in
      let in_order =
        sort-IsSorted by_priority (λ a b h. ground arith) (λ a b c h k. ground arith)
          matcher.patterns in
      let (apart, taken) =
        add_patterns-AreTaken 0 rules empty in_order
          (All-map rules (λ r h. omega arith) (All-Any rules))
          (record { seen = refl; apart = tt; ranked = tt }) in
      record {
        sorted =
            sort-IsSorted starts_before (λ a b h. ground arith) (λ a b c h k. ground arith)
              found.entities;
        apart = IsApart-sort found.entities apart;
        sound = All-sort starts_before (IsFrom matcher.patterns) found.entities (
            All-add_patterns (IsFrom matcher.patterns) rules empty
              (All-sort by_priority _ matcher.patterns IsFrom-matches) tt);
        greedy = All-unsort by_priority _ matcher.patterns (
            All-map rules
              (λ r h.
                All-map (matches_of engine matcher text r.0)
                  (λ m k. Any-sort starts_before found.entities k) h)
              taken);
      }
