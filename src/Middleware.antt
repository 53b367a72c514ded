-- ===== src/Middleware.antt =====
-- middleware.py: the protection against forged requests, the log of accesses, and the ids of requests.
pub mod Csrf
mod Examples
use Prim.Native.String.{◌++◌}
use tei_nlp_converter.Base.{
  ℕ, String, Bool, true, false, not, ◌||◌, ◌&&◌, Option, none, some, List, [], ◌∷◌, ◌==◌,
  string_key, if◌then◌else◌, Result, ok, raise, diverges, split,
}

-- What the code reads of `settings`.
pub record Settings : Type 0 where
  pub enable_csrf : Bool
  pub csrf_token_expiry : ℕ
  pub enable_audit_log : Bool

-- What the code reads of a request.
pub record Request : Type 0 where
  pub method : String
  pub path : String
  pub csrf_header : Option String
  pub csrf_cookie : Option String
  pub request_id_header : Option String
  pub user_id : Option String

-- A refusal with its detail, of status 403, or the response of what comes after.
pub data Response {ℓ} (B : Type ℓ) : Type ℓ where
  forbidden : String → Response B
  passed : B → Response B

-- Floats as the code uses them: `float(s)`, which may raise a `ValueError`, `str(t)`, `x - y`, and
-- `x < n` for an integer.
pub record Floats {ℓ} (F : Type ℓ) : Type ℓ where
  pub float : String → Option F
  pub str : F → String
  pub sub : F → F → F
  pub less_than : F → ℕ → Bool

-- `path in self.exclude_paths`
unfoldable pub is_in : String → List String → Bool
is_in s [] = false
is_in s (x ∷ xs) = let rest = is_in s xs in (x == s) || rest

-- `exclude_paths or […]`
abbrev pub excluded : Option (List String) → List String
excluded none = "/health" ∷ "/api/docs" ∷ "/openapi.json" ∷ []
excluded (some []) = "/health" ∷ "/api/docs" ∷ "/openapi.json" ∷ []
excluded (some (p ∷ paths)) = p ∷ paths

abbrev pub safe_methods : List String
safe_methods = "GET" ∷ "HEAD" ∷ "OPTIONS" ∷ []

-- `not header or not cookie or header != cookie`
abbrev pub mismatch : Option String → Option String → Bool
mismatch none cookie = true
mismatch (some h) none = true
mismatch (some h) (some c) = (h == "") || (c == "") || not (h == c)

-- `await call_next(request)`
unfoldable pub forward {κ μ} :
    {B : Type κ} {W : Type μ} → (Request → W → Result B × W) → Request → W → Result (Response B) × W
forward call_next request w =
    let (result, w') = call_next request w in
    ((elim result [ ok b ↦ ok (passed b) | raise e ↦ raise e | diverges ↦ diverges ]), w')

abbrev pub cookie_of : Option String → String
cookie_of none = ""
cookie_of (some s) = s

module _ {ℓ} {F : Type ℓ} (f : Floats F) where
  -- The age of a token of two parts; what cannot be read is too old.
  unfoldable pub validate_parts : F → ℕ → List String → Bool
  validate_parts now expiry (value ∷ timestamp ∷ []) = elim (f.float timestamp) [
    | none ↦ false
    | some t ↦ let age = f.sub now t in f.less_than age expiry
  ]
  validate_parts now expiry [] = false
  validate_parts now expiry (value ∷ []) = false
  validate_parts now expiry (value ∷ timestamp ∷ more ∷ parts) = false

  unfoldable pub validate_token_age : F → ℕ → String → Bool
  unfolding validate_parts
  validate_token_age now expiry token = validate_parts now expiry (split b':' token)

  -- `generate_csrf_token`, with what `secrets.token_urlsafe(32)` gave.
  unfoldable pub generate_csrf_token : String → F → String
  generate_csrf_token token_value now = token_value ++ (":" ++ f.str now)

  -- `CSRFProtectionMiddleware.dispatch`
  unfoldable pub dispatch {κ μ} :
      {B : Type κ} {W : Type μ}
      → Settings
      → List String
      → F
      → (Request → W → Result B × W)
      → Request
      → W
      → Result (Response B) × W
  unfolding is_in validate_token_age forward
  dispatch settings exclude_paths now call_next request w =
      if not settings.enable_csrf
      then forward call_next request w
      else (if is_in request.path exclude_paths
          then forward call_next request w
          else (if is_in request.method safe_methods
              then forward call_next request w
              else (if mismatch request.csrf_header request.csrf_cookie
                  then (ok (forbidden "CSRF token validation failed"), w)
                  else (if not (
                        validate_token_age now settings.csrf_token_expiry
                          (cookie_of request.csrf_cookie))
                      then (ok (forbidden "CSRF token expired"), w)
                      else forward call_next request w))))

-- `AuditLoggingMiddleware.dispatch`: what the log raises is caught.
pub audit {κ μ} :
    {B : Type κ} {W : Type μ}
    → Settings
    → (Request → B → W → Result (Unit {0}) × W)
    → (Request → W → Result B × W)
    → Request
    → W
    → Result B × W
audit settings log_audit call_next request w =
    let (result, w') = call_next request w in
    if settings.enable_audit_log
    then elim result [
      | ok b ↦
          let (logged, w'') = log_audit request b w' in
          ((elim logged [ ok u ↦ ok b | raise e ↦ ok b | diverges ↦ diverges ]), w'')
      | raise e ↦ (raise e, w')
      | diverges ↦ (diverges, w')
    ]
    else (result, w')
