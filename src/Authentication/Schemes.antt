-- ===== src/Authentication/Schemes.antt =====
-- What a request must carry to pass each of the three schemes.
use silverwind.Prelude.{
  String, ◌≡◌, refl, sym, ap, ◌∙◌, ◌↔◌, inl, inr, Bool, true, false, not, ◌||◌, Option, none, some,
  List, [], ◌∷◌, eq_iff, eq_refl, str_eq, if◌then◌else◌, Bool-cases, Option-cases, Outcome, ok, err,
  panic, ◌>>=◌, string_eq, strip_prefix, split,
}
use mathlib.Core.Bool.{false≢true}
use silverwind.Errors.{from, Cause}
use silverwind.External.{Http}
use silverwind.Denial.{allowed}
use silverwind.Authentication.{
  JwtAuth, BasicAuth, Authentication, basic, api_key, jwt, Crypto, contains_key, text_at,
  is_credential, basic_check, api_key_check, token_accepted, jwt_check, check_authentication,
  answer_of, check_request,
}

module _ (http : Http) (crypto : Crypto) (m : http.HeaderMap) where
  -- The header `k` is there, and is the text `s`.
  abbrev pub Carries : String → String → Type 0
  Carries k s = (v : http.HeaderValue) × (http.get m k ≡ some v) × (http.to_str v ≡ some s)

  -- Basic: two words, `Basic` and the encoded credentials. An API key: the configured value in the
  -- configured header. JWT: `Bearer ` and a token that decodes.
  abbrev pub Presents : Authentication → Type 0
  Presents (basic auth) =
      (s : String) × Carries "Authorization" s
      × (split b' ' s ≡ "Basic" ∷ crypto.encode auth.credentials ∷ [])
  Presents (api_key auth) = Carries auth.key auth.value
  Presents (jwt auth) =
      (s : String) × (token : String) × Carries "Authorization" s
      × (strip_prefix s "Bearer " ≡ some token)
      × (crypto.decodes auth token ≡ true)

  not_empty : (k : String) (v : http.HeaderValue) → http.get m k ≡ some v → http.is_empty m ≡ false
  not_empty k v e = elim (Bool-cases (http.is_empty m)) [
    | inl empty ↦ absurd (none≢some (sym (http.get-is_empty m k empty) ∙ e))
    | inr other ↦ other
  ]
    where
      none≢some : none ≡ some v → ⊥
      none≢some p = cc

  ok≢false : ok false ≡ ok true → ⊥
  ok≢false p = cc

  err≢ok : {e : String} → err e ≡ ok true → ⊥
  err≢ok p = cc

  -- The code of the first two schemes up to the text of the header.
  reads : String → String → (String → Bool) → Outcome Bool
  reads k message test =
      if http.is_empty m || not (contains_key http crypto m k)
      then ok false
      else (text_at http crypto m k message >>= λ s. ok (test s))

  reads-none : (k e : String) (t : String → Bool) → http.get m k ≡ none → reads k e t ≡ ok false
  unfolding reads contains_key
  reads-none k e t missing = elim (Bool-cases (http.is_empty m)) [
    | inl empty ↦ rw empty refl
    | inr other ↦ rw (other, missing) refl
  ]

  reads-opaque :
      (k e : String) (t : String → Bool) (v : http.HeaderValue)
      → http.get m k ≡ some v
      → http.to_str v ≡ none
      → reads k e t ≡ err (from Cause.header_text http.to_str_error)
  unfolding reads contains_key text_at
  reads-opaque k e t v found opaque = rw (not_empty k v found, found, opaque) refl

  reads-text :
      (k e : String) (t : String → Bool) (s : String) → Carries k s → reads k e t ≡ ok (t s)
  unfolding reads contains_key text_at
  reads-text k e t s (v, found, text) = rw (not_empty k v found, found, text) refl

  ok-injective : {a b : Bool} → ok a ≡ ok b → a ≡ b
  ok-injective h = cc

  reads-true :
      (k e : String) (t : String → Bool)
      → reads k e t ≡ ok true
      → (s : String) × Carries k s × (t s ≡ true)
  reads-true k e t h = elim (Option-cases (http.get m k)) [
    | inl missing ↦ absurd (ok≢false (sym (reads-none k e t missing) ∙ h))
    | inr (v, found) ↦ elim (Option-cases (http.to_str v)) [
      | inl opaque ↦ absurd (err≢ok (sym (reads-opaque k e t v found opaque) ∙ h))
      | inr (s, text) ↦
          (s, (v, found, text), ok-injective (sym (reads-text k e t s (v, found, text)) ∙ h))
    ]
  ]

  is_credential-true :
      (auth : BasicAuth) (parts : List String)
      → is_credential http crypto auth parts ≡ true
      → parts ≡ "Basic" ∷ crypto.encode auth.credentials ∷ []
  unfolding is_credential
  is_credential-true auth [] h = cc
  is_credential-true auth (a ∷ []) h = cc
  is_credential-true auth (a ∷ b ∷ []) h = elim (Bool-cases (str_eq a "Basic")) [
    | inl scheme ↦
        rw
          (
            (eq_iff a "Basic").0 scheme,
            (eq_iff b (crypto.encode auth.credentials)).0 (rw scheme at h),
          )
          refl
    | inr other ↦ absurd (false≢true (rw other at h))
  ]
  is_credential-true auth (a ∷ b ∷ c ∷ parts) h = cc

  is_credential_self :
      (auth : BasicAuth) (parts : List String)
      → parts ≡ "Basic" ∷ crypto.encode auth.credentials ∷ []
      → is_credential http crypto auth parts ≡ true
  unfolding is_credential
  is_credential_self auth parts e = rw e (rw (eq_refl (crypto.encode auth.credentials)) refl)

  jwt-none :
      (auth : JwtAuth) → http.get m "Authorization" ≡ none → jwt_check http crypto auth m ≡ ok false
  unfolding jwt_check
  jwt-none auth missing = rw (missing, jwt_check) refl

  jwt-opaque :
      (auth : JwtAuth) (v : http.HeaderValue)
      → http.get m "Authorization" ≡ some v
      → http.to_str v ≡ none
      → jwt_check http crypto auth m ≡ ok false
  unfolding jwt_check
  jwt-opaque auth v found opaque = rw (found, jwt_check) (rw opaque refl)

  jwt-text :
      (auth : JwtAuth) (s : String)
      → Carries "Authorization" s
      → jwt_check http crypto auth m
        ≡ ok (token_accepted http crypto auth (strip_prefix s "Bearer "))
  unfolding jwt_check
  jwt-text auth s (v, found, text) = rw (found, jwt_check) (rw text refl)

  accepted :
      (auth : JwtAuth) (token : Option String)
      → token_accepted http crypto auth token ≡ true
      → (t : String) × (token ≡ some t) × (crypto.decodes auth t ≡ true)
  unfolding token_accepted
  accepted auth none h = absurd (false≢true h)
  accepted auth (some t) h = (t, refl, h)

  passes→presents :
      (auth : Authentication) → check_authentication http crypto auth m ≡ ok true → Presents auth
  unfolding check_authentication basic_check api_key_check jwt_check reads token_accepted
  passes→presents (basic auth) h =
      let (s, carried, holds) =
        reads-true "Authorization" "Can not find Authorization"
          (λ s. is_credential http crypto auth (split b' ' s)) h in
      (s, carried, is_credential-true auth (split b' ' s) holds)
  passes→presents (api_key auth) h =
      let (s, (v, found, text), holds) =
        reads-true auth.key "Can not find key" (λ s. str_eq s auth.value) h in
      (v, found, rw (ap some (sym ((eq_iff s auth.value).0 holds))) text)
  passes→presents (jwt auth) h = elim (Option-cases (http.get m "Authorization")) [
    | inl missing ↦ absurd (ok≢false (sym (jwt-none auth missing) ∙ h))
    | inr (v, found) ↦ elim (Option-cases (http.to_str v)) [
      | inl opaque ↦ absurd (ok≢false (sym (jwt-opaque auth v found opaque) ∙ h))
      | inr (s, text) ↦
          let (token, bearer, decoded) =
            accepted auth (strip_prefix s "Bearer ")
              (ok-injective (sym (jwt-text auth s (v, found, text)) ∙ h)) in
          (s, token, (v, found, text), bearer, decoded)
    ]
  ]

  presents→passes :
      (auth : Authentication) → Presents auth → check_authentication http crypto auth m ≡ ok true
  unfolding check_authentication basic_check api_key_check jwt_check reads token_accepted
  presents→passes (basic auth) (s, carried, parts) =
      reads-text "Authorization" "Can not find Authorization"
        (λ s. is_credential http crypto auth (split b' ' s)) s carried
      ∙ ap ok (is_credential_self auth (split b' ' s) parts)
  presents→passes (api_key auth) carried =
      reads-text auth.key "Can not find key" (λ s. str_eq s auth.value) auth.value carried
      ∙ ap ok (eq_refl auth.value)
  presents→passes (jwt auth) (s, token, carried, bearer, decoded) =
      jwt-text auth s carried ∙ rw (bearer, decoded) refl

  allowed-true :
      (o : Outcome Bool)
      → ((o >>= λ passes. ok (answer_of http crypto passes)) ≡ ok allowed)
      → o ≡ ok true
  unfolding answer_of
  allowed-true (ok true) h = refl
  allowed-true (ok false) h = cc
  allowed-true (err e) h = cc
  allowed-true panic h = cc

  -- A request with headers passes the check exactly if it presents what the configured scheme asks
  -- for: the two words of the basic scheme, the API key, or a bearer token that decodes.
  pub check_request-Presents :
      (auth : Authentication)
      → (check_request http crypto (some m) auth ≡ ok allowed) ↔ Presents auth
  unfolding check_request answer_of
  check_request-Presents auth = (
    λ h. passes→presents auth (allowed-true (check_authentication http crypto auth m) h),
    λ p. rw (presents→passes auth p) refl,
  )
