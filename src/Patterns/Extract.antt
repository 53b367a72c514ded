-- ===== src/Patterns/Extract.antt =====
-- `extract_structured_data` of the pattern matcher.
mod Clash
mod Loop
pub mod Selection
use tei_nlp_converter.Base.{
  ℕ, suc, ◌+◌, String, Bool, true, false, ◌||◌, ◌&&◌, not, Option, none, some, List, [], ◌∷◌, ◌++◌,
  Dict, get, ◌==◌, string_key, if◌then◌else◌, leb, nat_beq, sort,
}
use tei_nlp_converter.Patterns.{
  Match, Engine, PatternRule, Metadata, StructuredEntity, DomainPatternMatcher, validated,
}

-- The floats that the confidences are made of: `1.0`, `0.7`, and the product with `0.8`.
pub record Floats {ℓ} (F : Type ℓ) : Type ℓ where
  pub one : F
  pub seven_tenths : F
  pub times_eight_tenths : F → F

abbrev pub Span : Type 0
Span = ℕ × ℕ

abbrev pub same_span : Span → Span → Bool
same_span s t = nat_beq s.0 t.0 && nat_beq s.1 t.1

abbrev pub spans_overlap : Span → Span → Bool
spans_overlap s t = not (leb s.1 t.0 || leb t.1 s.0)

-- `span in seen_spans`
unfoldable pub has_span : Span → List Span → Bool
has_span s [] = false
has_span s (t ∷ spans) = let rest = has_span s spans in same_span s t || rest

unfoldable pub overlaps : Span → List Span → Bool
overlaps s [] = false
overlaps s (t ∷ spans) = let rest = overlaps s spans in spans_overlap s t || rest

-- `priority_order.get(priority, 1)`
abbrev pub rank : String → ℕ
rank priority =
    if priority == "high"
    then 0
    else (if priority == "medium" then 1 else (if priority == "low" then 2 else 1))

abbrev pub by_priority : String × PatternRule → String × PatternRule → Bool
by_priority a b = leb (rank a.1.priority) (rank b.1.priority)

-- `if group: matched_groups[f"group_{i}"] = group`
unfoldable pub matched_groups : ℕ → List (Option String) → Dict ℕ String
matched_groups i [] = []
matched_groups i (none ∷ groups) = matched_groups (suc i) groups
matched_groups i (some group ∷ groups) =
    let rest = matched_groups (suc i) groups in if group == "" then rest else (i, group) ∷ rest

-- The entities and the spans so far.
pub record Found {ℓ} (F : Type ℓ) : Type ℓ where
  pub entities : List (StructuredEntity F)
  pub seen_spans : List Span

abbrev pub span_of : Match → Span
span_of m = (m.start, m.end)

abbrev pub starts_before {ℓ} : {F : Type ℓ} → StructuredEntity F → StructuredEntity F → Bool
starts_before a b = leb a.start b.start

-- The matches of a pattern; one that did not compile has none.
unfoldable pub matches_of {ℓ} :
    {P : Type ℓ} → Engine P → DomainPatternMatcher P → String → String → List Match
matches_of engine matcher text name = elim (get name matcher.compiled_patterns) [
  | none ↦ []
  | some p ↦ engine.finditer p text
]

module _ {ℓ κ} {P : Type ℓ} {F : Type κ} (engine : Engine P) (floats : Floats F) where
  -- `1.0` or `0.7`, times `0.8` for a low priority.
  confidence : Bool → String → F
  confidence passed priority =
      let base = if passed then floats.one else floats.seven_tenths in
      if priority == "low" then floats.times_eight_tenths base else base

  -- The entity of a match.
  unfoldable pub entity_of : String → String → PatternRule → Match → StructuredEntity F
  unfolding validated confidence
  entity_of domain name rule m =
      let passed = validated engine rule m.text in
      record {
        text = m.text;
        entity_type = rule.entity_type;
        start = m.start;
        end = m.end;
        pattern_name = name;
        confidence = confidence passed rule.priority;
        matched_groups = matched_groups 1 m.groups;
        validation_passed = passed;
        metadata = record {
          domain = domain;
          description = rule.description;
          priority = rule.priority;
        };
      }

  -- One match: it is skipped if its span is there or overlaps one that is.
  unfoldable pub add_match : String → String → PatternRule → Match → Found F → Found F
  add_match domain name rule m found =
      let span = span_of m in
      if has_span span found.seen_spans
      then found
      else (if overlaps span found.seen_spans then found else record {
        entities = found.entities ++ entity_of domain name rule m ∷ [];
        seen_spans = found.seen_spans ++ span ∷ [];
      })

  unfoldable pub add_matches : String → String → PatternRule → List Match → Found F → Found F
  unfolding add_match
  add_matches domain name rule [] found = found
  add_matches domain name rule (m ∷ ms) found =
      add_matches domain name rule ms (add_match domain name rule m found)

  unfoldable pub add_patterns :
      DomainPatternMatcher P → String → List (String × PatternRule) → Found F → Found F
  unfolding add_matches matches_of
  add_patterns matcher text [] found = found
  add_patterns matcher text ((name, rule) ∷ rules) found =
      add_patterns matcher text rules
        (add_matches matcher.domain name rule (matches_of engine matcher text name) found)

  unfoldable pub extract_structured_data :
      DomainPatternMatcher P → String → List (StructuredEntity F)
  unfolding add_patterns
  extract_structured_data matcher text =
      let found =
        add_patterns matcher text (sort by_priority matcher.patterns)
          (record { entities = []; seen_spans = [] }) in
      sort starts_before found.entities
