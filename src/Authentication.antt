-- ===== src/Authentication.antt =====
-- rust-proxy/src/middleware/authentication.rs: the three ways to authenticate a request by one of
-- its headers. Encoding in base64 and decoding a JWT are the crates'.
mod Schemes
mod Tests
use silverwind.Prelude.{
  ℕ, zero, suc, ◌+◌, ◌-◌, ◌*◌, ◌/◌, ◌%◌, ◌^◌, ◌≤◌, ◌<◌, String, ◌≡◌, refl, sym, ap, ◌∙◌, ◌≢◌, ◌↔◌,
  ◌⊎◌, inl, inr, Bool, true, false, not, ◌&&◌, ◌||◌, Option, none, some, List, [], ◌∷◌, ◌++◌, map,
  arith, eq_iff, eq_refl, ltb, leb, str_eq, ◌==◌, if◌then◌else◌, Bool-cases, Option-cases, lt→ltb,
  le→ltb, le→leb, lt→leb, length, get_elem?, is_empty, any, all, select, replicate, length-append,
  get_elem?_lt, All, All-get_elem?, All-select, select-holds, ℤ, pos, negsuc, to_u32, as_i32,
  add_i32, sub_i32, lt_ℤ, le_ℤ, min_ℤ, add_i32_pos, sub_i32_pos, as_i32_pos, Outcome, ok, err,
  panic, ◌>>=◌, ok_or, Outcome-cases, Eq, string_eq, ◌⧺◌, contains_char, strip_prefix, is_some,
  starts_with, split, decimal,
}
use silverwind.Errors.{from, Cause}
use silverwind.External.{Http}
use silverwind.Denial.{Denial, CheckResult, allowed, denied}

pub data JwtAlgorithm : Type 0 where
  hs256 hs384 hs512 : JwtAlgorithm

pub record JwtAuth : Type 0 where
  pub secret : String
  pub algorithm : JwtAlgorithm
  pub issuer : Option String
  pub audience : Option String

pub record BasicAuth : Type 0 where
  pub credentials : String

pub record ApiKeyAuth : Type 0 where
  pub key : String
  pub value : String

pub data Authentication : Type 0 where
  basic : BasicAuth → Authentication
  api_key : ApiKeyAuth → Authentication
  jwt : JwtAuth → Authentication

-- The crates base64 and jsonwebtoken: the standard alphabet without padding, and whether `decode`
-- accepts a token under a key and a validation of the algorithm, issuer and audience.
pub record Crypto : Type 0 where
  pub encode : String → String
  pub decodes : JwtAuth → String → Bool

module _ (http : Http) (crypto : Crypto) where
  contains_key : http.HeaderMap → String → Bool
  contains_key headers k = is_some (http.get headers k)

  -- `headers.get(k).ok_or(message)?.to_str()?`.
  text_at : http.HeaderMap → String → String → Outcome String
  text_at headers k message = ok_or (http.get headers k) message >>= λ v.
      ok_or (http.to_str v) (from Cause.header_text http.to_str_error)

  is_credential : BasicAuth → List String → Bool
  is_credential auth (scheme ∷ encoded ∷ []) =
      str_eq scheme "Basic" && str_eq encoded (crypto.encode auth.credentials)
  is_credential auth _ = false

  unfoldable pub basic_check : BasicAuth → http.HeaderMap → Outcome Bool
  unfolding contains_key text_at is_credential split
  basic_check auth headers =
      if http.is_empty headers || not (contains_key headers "Authorization")
      then ok false
      else (text_at headers "Authorization" "Can not find Authorization" >>= λ value.
          ok (is_credential auth (split b' ' value)))

  unfoldable pub api_key_check : ApiKeyAuth → http.HeaderMap → Outcome Bool
  unfolding contains_key text_at
  api_key_check auth headers =
      if http.is_empty headers || not (contains_key headers auth.key)
      then ok false
      else (text_at headers auth.key "Can not find key" >>= λ header_value.
          ok (str_eq header_value auth.value))

  token_accepted : JwtAuth → Option String → Bool
  token_accepted auth none = false
  token_accepted auth (some token) = crypto.decodes auth token

  unfoldable pub jwt_check : JwtAuth → http.HeaderMap → Outcome Bool
  unfolding token_accepted strip_prefix
  jwt_check auth headers = elim (http.get headers "Authorization") [
    | none ↦ ok false
    | some auth_header ↦ elim (http.to_str auth_header) [
      | none ↦ ok false
      | some auth_str ↦ ok (token_accepted auth (strip_prefix auth_str "Bearer "))
    ]
  ]

  unfoldable pub check_authentication : Authentication → http.HeaderMap → Outcome Bool
  check_authentication (basic auth) headers = basic_check auth headers
  check_authentication (api_key auth) headers = api_key_check auth headers
  check_authentication (jwt auth) headers = jwt_check auth headers

  unfoldable pub answer_of : Bool → CheckResult http
  answer_of true = allowed
  answer_of false =
      denied (record { status = 401; headers = http.empty; body = "Authentication failed" })

  unfoldable pub check_request : Option http.HeaderMap → Authentication → Outcome (CheckResult http)
  unfolding answer_of check_authentication
  check_request none auth = ok allowed
  check_request (some header_map) auth =
      check_authentication auth header_map >>= λ passes. ok (answer_of passes)
