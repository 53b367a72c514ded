-- ===== src/Patterns/Examples.antt =====
-- Tests and instances for the pattern matcher: two patterns, one of them of a low priority.
use tei_nlp_converter.Base.{
  string_key, ℕ, zero, suc, String, true, false, none, some, List, [], ◌∷◌, ◌≡◌, refl, map, sort,
  insert, get, ◌>>=◌, has_key, put,
}
use tei_nlp_converter.Patterns.{Match, Engine, PatternRule, DomainPatternMatcher, StructuredEntity}
use tei_nlp_converter.Patterns.Matcher.{Tables, init}
use tei_nlp_converter.Patterns.Extract.{
  Floats, has_span, overlaps, entity_of, extract_structured_data,
}
use tei_nlp_converter.Patterns.Extract.Selection.{IsSelection, extract_structured_data-IsSelection}
use tei_nlp_converter.Patterns.Matcher.Compiled.{
  add_call, remove_call, run, compiled, get-run-compiled,
}

abbrev match_at : ℕ → ℕ → String → Match
match_at start end text = record {
  start = start;
  end = end;
  text = text;
  groups = some text ∷ none ∷ [];
}

-- The matches of two compiled patterns, 0 and 1, in any text.
abbrev matches : ℕ → List Match
matches zero = match_at 0 3 "low" ∷ match_at 8 9 "x" ∷ []
matches (suc n) = match_at 4 7 "mid" ∷ match_at 2 4 "mid" ∷ match_at 2 4 "mid" ∷ []

abbrev engine : Engine ℕ
engine = record {
  compile = λ pattern flag. some 0;
  finditer = λ p text. matches p;
  matches = λ p text. true;
  fullmatch = λ p text. true;
  sub = λ pattern r text. text;
  upper = λ text. text;
  lower = λ text. text;
}

-- Confidences in hundredths.
abbrev floats : Floats ℕ
floats = record { one = 100; seven_tenths = 70; times_eight_tenths = λ c. 80 }

abbrev rule : String → String → PatternRule
rule name priority = record {
  name = name;
  pattern = name;
  entity_type = name;
  description = "";
  priority = priority;
  case_insensitive = false;
  validation = none;
  examples = [];
}

abbrev matcher : DomainPatternMatcher ℕ
matcher = record {
  domain = "general";
  patterns = ("a", rule "a" "low") ∷ ("b", rule "b" "medium") ∷ [];
  compiled_patterns = ("a", 0) ∷ ("b", 1) ∷ [];
}

abbrev starts : List (StructuredEntity ℕ) → List (String × ℕ)
starts es = map (λ e. (e.pattern_name, e.start)) es

medium_first :
    starts (extract_structured_data engine floats matcher "a text")
    ≡ ("b", 2) ∷ ("b", 4) ∷ ("a", 8) ∷ []
unfolding extract_structured_data sort insert get has_span overlaps entity_of
medium_first = refl

extract_structured_data-IsSelection_example :
    IsSelection engine floats matcher "a text"
      (extract_structured_data engine floats matcher "a text")
extract_structured_data-IsSelection_example =
    extract_structured_data-IsSelection engine floats matcher "a text"

abbrev tables : Tables
tables = record {
  medical = [];
  legal = [];
  financial = [];
  general =
      (
        "iso",
        record {
          pattern = some "iso";
          entity_type = none;
          description = none;
          priority = none;
          case_insensitive = none;
          validation = none;
          examples = none;
        },
      )
      ∷ [];
}

abbrev made : DomainPatternMatcher ℕ
made = record {
  domain = "legal";
  patterns = ("iso", rule "iso" "low") ∷ [];
  compiled_patterns = ("iso", 0) ∷ [];
}

get-run-compiled_example :
    get "iso"
      (run engine (add_call (rule "a" "high") ∷ remove_call "iso" ∷ []) made).compiled_patterns
    ≡ compiled engine
        (get "iso" (run engine (add_call (rule "a" "high") ∷ remove_call "iso" ∷ []) made).patterns)
unfolding init put has_key ◌>>=◌
get-run-compiled_example =
    get-run-compiled engine tables "legal" none
      (add_call (rule "a" "high") ∷ remove_call "iso" ∷ []) made "iso" refl ((λ e. cc e), (tt, tt))
