-- ===== src/Middleware/Csrf.antt =====
-- Which requests the protection against forged ones lets through.
use tei_nlp_converter.Base.{
  ℕ, String, true, false, Option, none, some, List, [], ◌∷◌, ◌==◌, string_key, ==_iff, ==_refl,
  ==_ne, if◌then◌else◌, Result, ok, ◌≡◌, ◌≢◌, refl, sym, ap, ◌∙◌, ◌⊎◌, inl, inr, Bool-cases,
  is_free, split, split_free, split-append,
}
use tei_nlp_converter.Middleware.{
  Settings, Request, forbidden, Floats, is_in, safe_methods, mismatch, cookie_of, forward,
  validate_parts, validate_token_age, generate_csrf_token, dispatch,
}

-- A text given in both places, and not empty.
abbrev IsGiven : Option String → Option String → Type 0
IsGiven header cookie = (t : String) × (header ≡ some t) × (cookie ≡ some t) × (t ≢ "")

IsGiven-in_both :
    (header cookie : Option String) → mismatch header cookie ≡ false → IsGiven header cookie
IsGiven-in_both none cookie h = absurd (cc h)
IsGiven-in_both (some t) none h = absurd (cc h)
IsGiven-in_both (some t) (some c) h = elim (Bool-cases (t == "")) [
  | inl empty ↦ absurd (cc (rw empty at h))
  | inr full ↦ elim (Bool-cases (c == "")) [
    | inl empty ↦ absurd (cc (rw (full, empty) at h))
    | inr full' ↦ elim (Bool-cases (t == c)) [
      | inl same ↦
          (t, refl, ap some (sym ((==_iff t c).0 same)), λ e. cc (full, e, ==_refl {A = String} ""))
      | inr other ↦ absurd (cc (rw (full, full', other) at h))
    ]
  ]
]

module _ {ℓ κ μ} {F : Type ℓ} {B : Type κ} {W : Type μ} (f : Floats F) (settings : Settings)
    (exclude_paths : List String) (now : F) (call_next : Request → W → Result B × W)
    (request : Request) (w : W) where
  -- With the protection on, a request for a path that is not excluded, with a method that is not safe, goes
  -- on only if its header and its cookie have the same text, which is not empty and whose age is
  -- valid; else it is refused, and nothing that comes after is called.
  pub dispatch_guards :
      settings.enable_csrf ≡ true
      → is_in request.path exclude_paths ≡ false
      → is_in request.method safe_methods ≡ false
      → ((t : String) × (request.csrf_header ≡ some t)
          × (request.csrf_cookie ≡ some t)
          × (t ≢ "")
          × (validate_token_age f now settings.csrf_token_expiry t ≡ true)
          × (dispatch f settings exclude_paths now call_next request w
              ≡ forward call_next request w))
        ⊎ ((detail : String) × (dispatch f settings exclude_paths now call_next request w
              ≡ (ok (forbidden detail), w)))
  unfolding dispatch
  dispatch_guards on open_path unsafe =
      elim (Bool-cases (mismatch request.csrf_header request.csrf_cookie)) [
        | inl refused ↦
            inr ("CSRF token validation failed", rw (dispatch, on, open_path, unsafe, refused) refl)
        | inr both ↦
            let (t, header, cookie, full) =
              IsGiven-in_both request.csrf_header request.csrf_cookie both in
            elim (Bool-cases (
              validate_token_age f now settings.csrf_token_expiry
                (cookie_of request.csrf_cookie))) [
                  | inl young ↦ inl (
                    t,
                    header,
                    cookie,
                    full,
                    rw cookie at young,
                    rw (dispatch, on, open_path, unsafe, both, young) refl,
                  )
                  | inr old ↦
                      inr
                        ("CSRF token expired", rw (dispatch, on, open_path, unsafe, both, old) refl)
                ]
      ]

  split-generate_csrf_token :
      (value : String) (issued : F)
      → is_free b':' value ≡ true
      → is_free b':' (f.str issued) ≡ true
      → split b':' (generate_csrf_token f value issued) ≡ value ∷ f.str issued ∷ []
  unfolding generate_csrf_token
  split-generate_csrf_token value issued free free' =
      split-append b':' value ":" (f.str issued) refl free
      ∙ ap (λ pieces. value ∷ pieces) (split_free b':' (f.str issued) free')

  generate_csrf_token_full :
      (value : String) (issued : F)
      → is_free b':' value ≡ true
      → is_free b':' (f.str issued) ≡ true
      → generate_csrf_token f value issued ≢ ""
  unfolding is_free
  generate_csrf_token_full value issued free free' empty =
      let one : "" ∷ [] ≡ value ∷ f.str issued ∷ [] =
        sym (split_free b':' "" refl)
        ∙ ap (split b':') (sym empty)
        ∙ split-generate_csrf_token value issued free free' in
      cc one

  -- The age of a token that was generated.
  validate_token_age-generate_csrf_token :
      (value : String) (issued : F) (expiry : ℕ)
      → is_free b':' value ≡ true
      → is_free b':' (f.str issued) ≡ true
      → f.float (f.str issued) ≡ some issued
      → validate_token_age f now expiry (generate_csrf_token f value issued)
        ≡ f.less_than (f.sub now issued) expiry
  unfolding validate_token_age validate_parts
  validate_token_age-generate_csrf_token value issued expiry free free' read =
      ap (validate_parts f now expiry) (split-generate_csrf_token value issued free free')
      ∙ rw (validate_parts, read) refl

  -- With the protection on, if a request for such a path and with such a method has a generated token in
  -- its header and its cookie, it goes on if its age, now less the time of its issue, is below the expiry,
  -- and is refused if it is not. The
  -- hypotheses are that neither part of the token has a colon and that a printed time is read back.
  pub dispatch-generate_csrf_token :
      (value : String) (issued : F)
      → settings.enable_csrf ≡ true
      → is_in request.path exclude_paths ≡ false
      → is_in request.method safe_methods ≡ false
      → request.csrf_header ≡ some (generate_csrf_token f value issued)
      → request.csrf_cookie ≡ some (generate_csrf_token f value issued)
      → is_free b':' value ≡ true
      → is_free b':' (f.str issued) ≡ true
      → f.float (f.str issued) ≡ some issued
      → dispatch f settings exclude_paths now call_next request w ≡ (
          if f.less_than (f.sub now issued) settings.csrf_token_expiry
          then forward call_next request w
          else (ok (forbidden "CSRF token expired"), w))
  unfolding dispatch
  dispatch-generate_csrf_token value issued on open_path unsafe header cookie free free' read =
      let full = generate_csrf_token_full value issued free free' in
      let token = generate_csrf_token f value issued in
      let age =
        validate_token_age-generate_csrf_token value issued settings.csrf_token_expiry free free'
          read in
      elim (Bool-cases (f.less_than (f.sub now issued) settings.csrf_token_expiry)) [
        | inl young ↦
            rw
              (
                dispatch,
                on,
                open_path,
                unsafe,
                header,
                cookie,
                ==_ne token "" full,
                ==_refl token,
                age,
                young,
              )
              refl
        | inr old ↦
            rw
              (
                dispatch,
                on,
                open_path,
                unsafe,
                header,
                cookie,
                ==_ne token "" full,
                ==_refl token,
                age,
                old,
              )
              refl
      ]
