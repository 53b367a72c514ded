-- ===== src/Patterns/Normalize.antt =====
-- `normalize_entity` of the pattern matcher.
use tei_nlp_converter.Base.{String, ◌==◌, string_key, if◌then◌else◌, strip, replace, replace_text}
use tei_nlp_converter.Patterns.{Engine, StructuredEntity, DomainPatternMatcher}

module _ {ℓ} {P : Type ℓ} (engine : Engine P) where
  normalize_medical : String → String → String
  normalize_medical entity_type text =
      if entity_type == "DOSAGE"
      then replace_text "unit" "U" (replace_text "mcg" "µg" text)
      else (if entity_type == "ROUTE"
          then engine.upper text
          else (if entity_type == "FREQUENCY" then replace b'.' "" (engine.lower text) else text))

  normalize_legal : String → String → String
  normalize_legal entity_type text =
      if entity_type == "USC_CITATION"
      then engine.sub "U\\.?S\\.?C\\.?" "U.S.C."
          (replace_text "sec." "§" (replace_text "section" "§" text))
      else (if entity_type == "CFR_CITATION"
          then engine.sub "C\\.?F\\.?R\\.?" "C.F.R." text
          else text)

  normalize_financial : String → String → String
  normalize_financial entity_type text =
      if entity_type == "CURRENCY_AMOUNT"
      then replace b' ' "" text
      else (if entity_type == "TICKER_SYMBOL" then engine.upper text else text)

  pub normalize_entity {κ} :
      {F : Type κ} → DomainPatternMatcher P → StructuredEntity F → StructuredEntity F
  unfolding normalize_medical normalize_legal normalize_financial
  normalize_entity m e =
      let text = strip e.text in
      record e {
        text =
            if m.domain == "medical"
            then normalize_medical e.entity_type text
            else (if m.domain == "legal"
                then normalize_legal e.entity_type text
                else (if m.domain == "financial"
                    then normalize_financial e.entity_type text
                    else text));
      }
