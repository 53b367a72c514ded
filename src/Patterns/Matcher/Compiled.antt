-- ===== src/Patterns/Matcher/Compiled.antt =====
-- The compiled patterns are those of the patterns, as long as what is added compiles.
use tei_nlp_converter.Base.{
  String, Bool, true, false, Option, none, some, List, [], ◌∷◌, Dict, get, put, has_key, ◌==◌,
  string_key, if◌then◌else◌, ok, Ensures, Ensures-ok, Ensures-bind, Ensures-item, Ensures-if,
  IsDistinct, IsDistinct-put, IsDistinct-remove, get-put, get-remove, ◌≡◌, ◌≢◌, refl, arith,
  Option-cases, Bool-cases, inl, inr, All, ==_iff,
}
use tei_nlp_converter.Patterns.{Engine, PatternRule, DomainPatternMatcher, compile}
use tei_nlp_converter.Patterns.Matcher.{
  Config, Tables, or_default, load_domain_patterns, load_custom_patterns, load_general_patterns,
  compile_patterns, init, table_of, add_pattern, remove_pattern,
}

pub data Call : Type 0 where
  add_call : PatternRule → Call
  remove_call : String → Call

module _ {ℓ} {P : Type ℓ} (engine : Engine P) where
  unfoldable pub step : Call → DomainPatternMatcher P → DomainPatternMatcher P
  unfolding add_pattern remove_pattern
  step (add_call rule) m = add_pattern engine rule m
  step (remove_call name) m = remove_pattern engine name m

  unfoldable pub run : List Call → DomainPatternMatcher P → DomainPatternMatcher P
  run [] m = m
  run (c ∷ calls) m = run calls (step c m)

  -- What is added compiles.
  abbrev pub Compiles : Call → Type ℓ
  Compiles (add_call rule) = compile engine rule ≢ none
  Compiles (remove_call name) = Unit

  -- What a rule compiles to, if there is one.
  abbrev pub compiled : Option PatternRule → Option P
  compiled none = none
  compiled (some rule) = compile engine rule

  record IsGood (m : DomainPatternMatcher P) : Type ℓ where
    distinct : IsDistinct m.patterns
    distinct_compiled : IsDistinct m.compiled_patterns
    same : (name : String) → get name m.compiled_patterns ≡ compiled (get name m.patterns)

  load_domain_patterns-IsDistinct :
      (configs : Dict String Config) (patterns : Dict String PatternRule)
      → IsDistinct patterns
      → Ensures IsDistinct (load_domain_patterns engine configs patterns)
  unfolding load_domain_patterns
  load_domain_patterns-IsDistinct [] patterns h = Ensures-ok patterns h
  load_domain_patterns-IsDistinct ((name, config) ∷ configs) patterns h =
      Ensures-bind {Q = λ rule. Unit {0}} _ _ (record { at = λ rule e. tt })
        λ rule q.
          load_domain_patterns-IsDistinct configs (put name rule patterns)
            (IsDistinct-put name rule patterns h)

  load_custom_patterns-IsDistinct :
      (configs : Dict String Config) (patterns : Dict String PatternRule)
      → IsDistinct patterns
      → Ensures IsDistinct (load_custom_patterns engine configs patterns)
  unfolding load_custom_patterns
  load_custom_patterns-IsDistinct [] patterns h = Ensures-ok patterns h
  load_custom_patterns-IsDistinct ((name, config) ∷ configs) patterns h =
      Ensures-bind {Q = λ rule. Unit {0}} _ _ (record { at = λ rule e. tt })
        λ rule q. load_custom_patterns-IsDistinct configs _ (IsDistinct-put name _ patterns h)

  load_general_patterns-IsDistinct :
      (configs : Dict String Config) (patterns : Dict String PatternRule)
      → IsDistinct patterns
      → Ensures IsDistinct (load_general_patterns engine configs patterns)
  unfolding load_general_patterns
  load_general_patterns-IsDistinct [] patterns h = Ensures-ok patterns h
  load_general_patterns-IsDistinct ((name, config) ∷ configs) patterns h =
      Ensures-if (has_key name patterns) (load_general_patterns-IsDistinct configs patterns h) (
        Ensures-bind _ _ (Ensures-item "pattern" config.pattern) λ pattern q.
          load_general_patterns-IsDistinct configs _ (IsDistinct-put name _ patterns h))

  -- What is compiled of rules with different names, over what is compiled already.
  abbrev over : Option P → Option P → Option P
  over none old = old
  over (some p) old = some p

  get-compile_patterns :
      (name : String) (rules : Dict String PatternRule) (acc : Dict String P)
      → IsDistinct rules
      → get name (compile_patterns engine rules acc)
        ≡ over (compiled (get name rules)) (get name acc)
  unfolding compile_patterns get
  get-compile_patterns name [] acc h = refl
  get-compile_patterns name ((k, rule) ∷ rules) acc h = elim (Option-cases (compile engine rule)) [
    | inl fails ↦ elim (Bool-cases (k == name)) [
      | inl here ↦
          rw (compile_patterns, fails, get-compile_patterns name rules acc h.1)
            (ground (arith, ==_iff k name, h.0))
      | inr other ↦ rw (compile_patterns, fails, other) (get-compile_patterns name rules acc h.1)
    ]
    | inr (p, e) ↦ elim (Bool-cases (k == name)) [
      | inl here ↦
          rw
            (
              compile_patterns,
              e,
              get-compile_patterns name rules (put k p acc) h.1,
              get-put k name p acc,
            )
            (ground (arith, ==_iff k name, h.0))
      | inr other ↦
          rw
            (
              compile_patterns,
              e,
              other,
              get-compile_patterns name rules (put k p acc) h.1,
              get-put k name p acc,
              other,
            )
            refl
    ]
  ]

  compile_patterns-IsDistinct :
      (rules : Dict String PatternRule) (acc : Dict String P)
      → IsDistinct acc
      → IsDistinct (compile_patterns engine rules acc)
  unfolding compile_patterns
  compile_patterns-IsDistinct [] acc h = h
  compile_patterns-IsDistinct ((k, rule) ∷ rules) acc h =
      elim (Option-cases (compile engine rule)) [
        | inl fails ↦ rw (compile_patterns, fails) (compile_patterns-IsDistinct rules acc h)
        | inr (p, e) ↦
            rw (compile_patterns, e)
              (compile_patterns-IsDistinct rules (put k p acc) (IsDistinct-put k p acc h))
      ]

  init-IsGood :
      (tables : Tables) (domain : String) (custom_patterns : Option (Dict String Config))
      → Ensures IsGood (init engine tables domain custom_patterns)
  unfolding init get
  init-IsGood tables domain custom_patterns =
      Ensures-bind _ _ (load_domain_patterns-IsDistinct (table_of tables domain) [] tt)
        λ patterns h.
          Ensures-bind _ _
            (load_custom_patterns-IsDistinct (or_default [] custom_patterns) patterns h)
            λ patterns' h'.
              Ensures-bind _ _ (load_general_patterns-IsDistinct tables.general patterns' h')
                λ patterns'' h''. Ensures-ok _ (record {
                  distinct = h'';
                  distinct_compiled = compile_patterns-IsDistinct patterns'' [] tt;
                  same = λ name. over_nothing name patterns'' h'';
                })
    where
      over_nothing :
          (name : String) (rules : Dict String PatternRule)
          → IsDistinct rules
          → get name (compile_patterns engine rules []) ≡ compiled (get name rules)
      over_nothing name rules h = elim (Option-cases (compiled (get name rules))) [
        | inl nothing ↦ rw (get-compile_patterns name rules [] h, nothing) refl
        | inr (p, e) ↦ rw (get-compile_patterns name rules [] h, e) refl
      ]

  step-IsGood : (c : Call) (m : DomainPatternMatcher P) → Compiles c → IsGood m → IsGood (step c m)
  unfolding step
  step-IsGood (add_call rule) m fine good = elim (Option-cases (compile engine rule)) [
    | inl fails ↦ absurd (fine fails)
    | inr (p, e) ↦
        simp (add_pattern, e)
          (record {
            distinct = IsDistinct-put rule.name rule m.patterns good.distinct;
            distinct_compiled =
                IsDistinct-put rule.name p m.compiled_patterns good.distinct_compiled;
            same = λ name. added name p e;
          })
  ]
    where
      added :
          (name : String) (p : P)
          → compile engine rule ≡ some p
          → get name (put rule.name p m.compiled_patterns)
            ≡ compiled (get name (put rule.name rule m.patterns))
      added name p e =
          rw
            (
              get-put rule.name name p m.compiled_patterns,
              get-put rule.name name rule m.patterns,
              good.same name,
            )
            (by_name (rule.name == name) (get name m.patterns))
        where
          by_name :
              (here : Bool) (old : Option PatternRule)
              → (if here then some p else compiled old) ≡ compiled (if here then some rule else old)
          by_name true old = rw e refl
          by_name false old = refl
  step-IsGood (remove_call name) m fine good = record {
    distinct = IsDistinct-remove name m.patterns good.distinct;
    distinct_compiled = IsDistinct-remove name m.compiled_patterns good.distinct_compiled;
    same = λ other.
        rw
          (
            get-remove name other m.compiled_patterns good.distinct_compiled,
            get-remove name other m.patterns good.distinct,
            good.same other,
          )
          (by_name (name == other) (get other m.patterns));
  }
    where
      by_name :
          (here : Bool) (old : Option PatternRule)
          → (if here then none else compiled old) ≡ compiled (if here then none else old)
      by_name true old = refl
      by_name false old = refl

  run-IsGood :
      (calls : List Call) (m : DomainPatternMatcher P)
      → All Compiles calls
      → IsGood m
      → IsGood (run calls m)
  unfolding run
  run-IsGood [] m fine good = good
  run-IsGood (c ∷ calls) m fine good =
      run-IsGood calls (step c m) fine.1 (step-IsGood c m fine.0 good)

  -- If a new matcher is made, and after it patterns that compile are added and patterns are removed, in
  -- any order: what is compiled under a name is what the rule under that name compiles to, and there is
  -- nothing where there is no rule.
  pub get-run-compiled :
      (tables : Tables) (domain : String) (custom_patterns : Option (Dict String Config))
      (calls : List Call) (m : DomainPatternMatcher P) (name : String)
      → init engine tables domain custom_patterns ≡ ok m
      → All Compiles calls
      → get name (run calls m).compiled_patterns ≡ compiled (get name (run calls m).patterns)
  get-run-compiled tables domain custom_patterns calls m name made fine =
      (run-IsGood calls m fine ((init-IsGood tables domain custom_patterns).at m made)).same name
