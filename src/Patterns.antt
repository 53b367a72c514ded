-- ===== src/Patterns.antt =====
-- domain_nlp/pattern_matching/matcher.py: structured data found by regular expressions.
pub mod Matcher
pub mod Extract
pub mod Normalize
mod Examples
use tei_nlp_converter.Base.{
  ℕ, String, Bool, true, false, Option, none, some, List, [], ◌∷◌, Dict, ◌==◌, string_key,
  if◌then◌else◌,
}

-- What the code reads of a match of the module `re`.
pub record Match : Type 0 where
  pub start : ℕ
  pub end : ℕ
  pub text : String
  pub groups : List (Option String)

-- The module `re` with compiled patterns `P`, and what the code uses of `str`. `compile` fails with a
-- `re.error`; its flag is `re.IGNORECASE`.
pub record Engine {ℓ} (P : Type ℓ) : Type ℓ where
  pub compile : String → Bool → Option P
  pub finditer : P → String → List Match
  pub matches : P → String → Bool
  pub fullmatch : P → String → Bool
  pub sub : String → String → String → String
  pub upper : String → String
  pub lower : String → String

pub record PatternRule : Type 0 where
  pub name : String
  pub pattern : String
  pub entity_type : String
  pub description : String
  pub priority : String
  pub case_insensitive : Bool
  pub validation : Option String
  pub examples : List String

pub record Metadata : Type 0 where
  pub domain : String
  pub description : String
  pub priority : String

-- The group of number `i` is under the key `i`, which the code writes `group_i`.
pub record StructuredEntity {ℓ} (F : Type ℓ) : Type ℓ where
  pub text : String
  pub entity_type : String
  pub start : ℕ
  pub end : ℕ
  pub pattern_name : String
  pub confidence : F
  pub matched_groups : Dict ℕ String
  pub validation_passed : Bool
  pub metadata : Metadata

pub record DomainPatternMatcher {ℓ} (P : Type ℓ) : Type ℓ where
  pub domain : String
  pub patterns : Dict String PatternRule
  pub compiled_patterns : Dict String P

-- `PatternRule.compile`
abbrev pub compile {ℓ} : {P : Type ℓ} → Engine P → PatternRule → Option P
compile engine rule = engine.compile rule.pattern rule.case_insensitive

-- `if rule.validation:` the pattern is compiled and has to match; one that does not compile passes.
pub validated {ℓ} : {P : Type ℓ} → Engine P → PatternRule → String → Bool
validated engine rule text = elim rule.validation [
  | none ↦ true
  | some pattern ↦
      if pattern == ""
      then true
      else elim (engine.compile pattern false) [ none ↦ true | some p ↦ engine.matches p text ]
]
