-- ===== src/Cors/Answers.antt =====
-- Which answer a preflight request gets.
use silverwind.Prelude.{
  ℕ, String, ◌≡◌, refl, sym, ap, ◌∙◌, Bool, true, false, Option, none, some, Outcome, ok, string_eq,
}
use silverwind.Prelude.{ok-inj}
use silverwind.External.{Http, RegexEngine, Codecs}
use silverwind.Response.{Response}
use silverwind.Cors.{
  CorsConfig, CorsAllowedOrigins, every_origin, validate_origin, validate_in, handle_preflight,
  response, preflight_headers,
}

module _ (http : Http) (codecs : Codecs) (engine : RegexEngine) (build_error : String) where
  abbrev pub HasStatus : Outcome (Response http codecs) → ℕ → Type 0
  HasStatus o n = (r : Response http codecs) → o ≡ ok r → r.status ≡ n

  response-status :
      (n : ℕ) (m : Option http.HeaderMap)
      → HasStatus (response http codecs engine build_error n m) n
  unfolding response
  response-status n none r e = cc
  response-status n (some m) r e = ap (λ (x : Response http codecs). x.status) (sym (ok-inj e))

  validate_in-every :
      {o : CorsAllowedOrigins} {c : Option Bool}
      → o ≡ every_origin
      → c ≡ none
      → validate_in engine o c "" ≡ ok true
  unfolding validate_in
  validate_in-every {o} {c} a e =
      ap (λ x. validate_in engine x c "") a ∙ ap (λ x. validate_in engine every_origin x "") e

  forbidden :
      (config : CorsConfig) (origin : String)
      → validate_origin engine config "" ≡ ok true
      → handle_preflight http codecs engine build_error config origin
        ≡ ok (record { status = 403; headers = http.empty; body = ok (codecs.of_text "") })
  unfolding handle_preflight response
  forbidden config origin e = rw (e, handle_preflight) refl

  allows_empty :
      (config : CorsConfig)
      → config.allowed_origins ≡ every_origin
      → config.allow_credentials ≡ none
      → validate_origin engine config "" ≡ ok true
  unfolding validate_origin
  allows_empty config a c = validate_in-every a c

  -- A preflight request is refused with status 403 if the configuration accepts the empty text as an
  -- origin, and otherwise every answer it gets has status 204, whatever its own origin is and
  -- whether the configuration accepts that one. So with all origins allowed and no setting for
  -- credentials, every preflight request is refused.
  pub handle_preflight-status :
      (config : CorsConfig) (origin : String)
      → (validate_origin engine config "" ≡ ok true
          → handle_preflight http codecs engine build_error config origin
            ≡ ok (record { status = 403; headers = http.empty; body = ok (codecs.of_text "") }))
        × (validate_origin engine config "" ≡ ok false
            → HasStatus (handle_preflight http codecs engine build_error config origin) 204)
        × (config.allowed_origins ≡ every_origin
            → config.allow_credentials ≡ none
            → HasStatus (handle_preflight http codecs engine build_error config origin) 403)
  unfolding handle_preflight
  handle_preflight-status config origin = (
    forbidden config origin,
    λ e.
        rw (e, handle_preflight)
          (response-status 204 (preflight_headers http codecs engine build_error config origin)),
    λ a c r h.
        ap (λ (x : Response http codecs). x.status)
          (sym (ok-inj (sym (forbidden config origin (allows_empty config a c)) ∙ h))),
  )
