-- ===== src/Patterns/Matcher.antt =====
-- The patterns of a matcher: how they are loaded, compiled, added and removed.
pub mod Compiled
use tei_nlp_converter.Base.{
  ℕ, String, Bool, true, false, ◌||◌, not, Option, none, some, List, [], ◌∷◌, Dict, get, put,
  remove, has_key, ◌==◌, string_key, if◌then◌else◌, Result, ok, raise, key_error, ◌>>=◌, item,
}
use tei_nlp_converter.Patterns.{Engine, PatternRule, DomainPatternMatcher, compile, validated}

-- The configuration of a pattern, where every key may be missing.
pub record Config : Type 0 where
  pub pattern : Option String
  pub entity_type : Option String
  pub description : Option String
  pub priority : Option String
  pub case_insensitive : Option Bool
  pub validation : Option String
  pub examples : Option (List String)

-- `config.get(key, default)`
abbrev pub or_default {ℓ} : {A : Type ℓ} → A → Option A → A
or_default a none = a
or_default a (some b) = b

-- `MEDICAL_PATTERNS` and the other tables.
pub record Tables : Type 0 where
  pub medical : Dict String Config
  pub legal : Dict String Config
  pub financial : Dict String Config
  pub general : Dict String Config

-- `domain_mapping.get(domain, {})`
abbrev pub table_of : Tables → String → Dict String Config
table_of tables domain =
    if domain == "medical"
    then tables.medical
    else (if domain == "legal"
        then tables.legal
        else (if domain == "financial" then tables.financial else []))

module _ {ℓ} {P : Type ℓ} (engine : Engine P) where
  -- A rule of a table of a domain.
  unfoldable pub domain_rule : String → Config → Result PatternRule
  domain_rule name config = do
    pattern ← item "pattern" config.pattern
    ok (record {
      name = name;
      pattern = pattern;
      entity_type = engine.upper name;
      description = or_default "" config.description;
      priority = or_default "medium" config.priority;
      case_insensitive = or_default false config.case_insensitive;
      validation = config.validation;
      examples = or_default [] config.examples;
    })

  unfoldable pub load_domain_patterns :
      Dict String Config → Dict String PatternRule → Result (Dict String PatternRule)
  unfolding domain_rule
  load_domain_patterns [] patterns = ok patterns
  load_domain_patterns ((name, config) ∷ configs) patterns = do
    rule ← domain_rule name config
    load_domain_patterns configs (put name rule patterns)

  unfoldable pub load_custom_patterns :
      Dict String Config → Dict String PatternRule → Result (Dict String PatternRule)
  unfolding domain_rule
  load_custom_patterns [] patterns = ok patterns
  load_custom_patterns ((name, config) ∷ configs) patterns = do
    rule ← domain_rule name config
    load_custom_patterns configs (
        put name (record rule { entity_type = or_default (engine.upper name) config.entity_type })
          patterns)

  -- A general pattern does not replace one of the domain; only these keys of it are read.
  unfoldable pub load_general_patterns :
      Dict String Config → Dict String PatternRule → Result (Dict String PatternRule)
  load_general_patterns [] patterns = ok patterns
  load_general_patterns ((name, config) ∷ configs) patterns =
      if has_key name patterns
      then load_general_patterns configs patterns
      else (item "pattern" config.pattern >>= λ pattern. load_general_patterns configs (
          put name
            (record {
              name = name;
              pattern = pattern;
              entity_type = engine.upper name;
              description = or_default "" config.description;
              priority = or_default "low" config.priority;
              case_insensitive = false;
              validation = none;
              examples = [];
            })
            patterns))

  -- A pattern that does not compile has no entry.
  unfoldable pub compile_patterns : Dict String PatternRule → Dict String P → Dict String P
  compile_patterns [] compiled = compiled
  compile_patterns ((name, rule) ∷ rules) compiled = elim (compile engine rule) [
    | none ↦ compile_patterns rules compiled
    | some p ↦ compile_patterns rules (put name p compiled)
  ]

  unfoldable pub init :
      Tables → String → Option (Dict String Config) → Result (DomainPatternMatcher P)
  unfolding load_domain_patterns load_custom_patterns load_general_patterns compile_patterns
  init tables domain custom_patterns = do
    patterns ← load_domain_patterns (table_of tables domain) []
    patterns' ← load_custom_patterns (or_default [] custom_patterns) patterns
    patterns'' ← load_general_patterns tables.general patterns'
    ok (record {
      domain = domain;
      patterns = patterns'';
      compiled_patterns = compile_patterns patterns'' [];
    })

  -- `add_pattern` of the rule that its arguments make.
  unfoldable pub add_pattern : PatternRule → DomainPatternMatcher P → DomainPatternMatcher P
  add_pattern rule m = record m {
    patterns = put rule.name rule m.patterns;
    compiled_patterns = elim (compile engine rule) [
      | none ↦ m.compiled_patterns
      | some p ↦ put rule.name p m.compiled_patterns
    ];
  }

  unfoldable pub remove_pattern : String → DomainPatternMatcher P → DomainPatternMatcher P
  remove_pattern name m = record m {
    patterns = remove name m.patterns;
    compiled_patterns = remove name m.compiled_patterns;
  }

  -- The first pattern for a type of entity.
  rule_for : String → Dict String PatternRule → Option PatternRule
  rule_for entity_type [] = none
  rule_for entity_type ((name, r) ∷ rules) =
      let rest = rule_for entity_type rules in
      if (r.entity_type == entity_type) || (name == engine.lower entity_type) then some r else rest

  pub validate_entity : String → String → DomainPatternMatcher P → Bool
  unfolding rule_for validated
  validate_entity entity_type text m = elim (rule_for entity_type m.patterns) [
    | none ↦ false
    | some rule ↦ elim (get rule.name m.compiled_patterns) [
      | none ↦ false
      | some p ↦ if engine.fullmatch p text then validated engine rule text else false
    ]
  ]
