-- ===== src/Middleware/Examples.antt =====
-- Tests and instances for middleware.py: times are whole seconds, and every text but the empty one is 7.
use tei_nlp_converter.Base.{
  suc, is_free, ℕ, ◌-◌, String, true, Option, none, some, Result, ok, ltb, if◌then◌else◌, ◌≡◌, ◌≢◌,
  ◌⊎◌, refl, ◌==◌, string_key,
}
use tei_nlp_converter.Middleware.{
  Settings, Request, forbidden, Floats, is_in, excluded, forward, validate_token_age,
  generate_csrf_token, dispatch,
}
use tei_nlp_converter.Middleware.Csrf.{dispatch_guards, dispatch-generate_csrf_token}

abbrev floats : Floats ℕ
floats = record {
  float = λ s. if s == "" then none else some 7;
  str = λ t. "7";
  sub = λ x y. x - y;
  less_than = λ x n. ltb x n;
}

abbrev settings : Settings
settings = record { enable_csrf = true; csrf_token_expiry = 3600; enable_audit_log = true }

abbrev post : Option String → Request
post token = record {
  method = "POST";
  path = "/process";
  csrf_header = token;
  csrf_cookie = token;
  request_id_header = none;
  user_id = none;
}

-- A handler that counts its calls.
abbrev handler : Request → ℕ → Result ℕ × ℕ
handler request w = (ok 200, suc w)

forged :
    dispatch floats settings (excluded none) 8 handler (post none) 0
    ≡ (ok (forbidden "CSRF token validation failed"), 0)
unfolding dispatch
forged = refl

dispatch_guards_example :
    ((t : String) × (some "abc:7" ≡ some t)
      × (some "abc:7" ≡ some t)
      × (t ≢ "")
      × (validate_token_age floats 8 3600 t ≡ true)
      × (dispatch floats settings (excluded none) 8 handler (post (some "abc:7")) 0
          ≡ forward handler (post (some "abc:7")) 0))
    ⊎ ((detail : String) × (dispatch floats settings
            (excluded none)
            8
            handler
            (post (some "abc:7"))
            0
          ≡ (ok (forbidden detail), 0)))
unfolding is_in
dispatch_guards_example =
    dispatch_guards floats settings (excluded none) 8 handler (post (some "abc:7")) 0 refl refl refl

dispatch-generate_csrf_token_example :
    dispatch floats settings
      (excluded none)
      8
      handler
      (post (some (generate_csrf_token floats "abc" 7)))
      0
    ≡ (if ltb (8 - 7) 3600
        then forward handler (post (some (generate_csrf_token floats "abc" 7))) 0
        else (ok (forbidden "CSRF token expired"), 0))
unfolding is_in generate_csrf_token is_free
dispatch-generate_csrf_token_example =
    dispatch-generate_csrf_token floats settings (excluded none) 8 handler
      (post (some (generate_csrf_token floats "abc" 7))) 0 "abc" 7 refl refl refl refl refl refl
      refl refl
