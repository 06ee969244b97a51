-- ===== src/Cors.antt =====
-- rust-proxy/src/middleware/cors_config.rs, and the answer to a preflight request of
-- proxy/proxy_trait.rs.
mod Answers
mod Tests
use silverwind.Prelude.{
  ℕ, zero, suc, ◌+◌, ◌-◌, ◌*◌, ◌/◌, ◌%◌, ◌^◌, ◌≤◌, ◌<◌, String, ◌≡◌, refl, sym, ap, ◌∙◌, ◌≢◌, ◌↔◌,
  ◌⊎◌, inl, inr, Bool, true, false, not, ◌&&◌, ◌||◌, Option, none, some, List, [], ◌∷◌, ◌++◌, map,
  arith, eq_iff, eq_refl, ltb, leb, str_eq, ◌==◌, if◌then◌else◌, Bool-cases, Option-cases, lt→ltb,
  le→ltb, le→leb, lt→leb, length, get_elem?, is_empty, any, all, select, replicate, length-append,
  get_elem?_lt, All, All-get_elem?, All-select, select-holds, ℤ, pos, negsuc, to_u32, as_i32,
  add_i32, sub_i32, lt_ℤ, le_ℤ, min_ℤ, add_i32_pos, sub_i32_pos, as_i32_pos, Outcome, ok, err,
  panic, ◌>>=◌, ok_or, Outcome-cases, Done, or_else, and_then, Eq, string_eq, ◌⧺◌, contains_char,
  strip_prefix, is_some, starts_with, split, decimal, int_text, join, ends_with, contains_str,
}
use silverwind.Errors.{from, Cause}
use silverwind.External.{Http, RegexEngine, Codecs}
use silverwind.Headers.{set}
use silverwind.Response.{Response, static_value}

pub data CorsAllowedOrigins : Type 0 where
  every_origin : CorsAllowedOrigins
  origins : List String → CorsAllowedOrigins

pub data Method : Type 0 where
  get post put delete head options : Method

pub data HeaderName : Type 0 where
  content_type authorization accepts set_cookie cookie range : HeaderName

pub data CorsAllowHeader : Type 0 where
  every_header : CorsAllowHeader
  headers : List HeaderName → CorsAllowHeader

pub record CorsConfig : Type 0 where
  pub allowed_origins : CorsAllowedOrigins
  pub allowed_methods : List Method
  pub allowed_headers : Option CorsAllowHeader
  pub allow_credentials : Option Bool
  pub max_age : Option ℤ
  pub options_passthrough : Option Bool

abbrev pub method_text : Method → String
method_text get = "GET"
method_text post = "POST"
method_text put = "PUT"
method_text delete = "DELETE"
method_text head = "HEAD"
method_text options = "OPTIONS"

abbrev pub header_text : HeaderName → String
header_text content_type = "Content-Type"
header_text authorization = "Authorization"
header_text accepts = "Accepts"
header_text set_cookie = "Set-Cookie"
header_text cookie = "Cookie"
header_text range = "Range"

-- Display of the origins and of the headers.
unfoldable pub origins_text : CorsAllowedOrigins → String
unfolding join
origins_text every_origin = "*"
origins_text (origins v) = join ", " v

unfoldable pub headers_text : CorsAllowHeader → String
unfolding join
headers_text every_header = "*"
headers_text (headers names) = join ", " (map header_text names)

-- The names are upper-case texts, which `to_uppercase` leaves.
unfoldable pub methods_text : List Method → String
unfolding join
methods_text methods = join ", " (map method_text methods)

abbrev pub is_all : CorsAllowedOrigins → Bool
is_all every_origin = true
is_all (origins v) = false

module _ (engine : RegexEngine) where
  -- The loop over the patterns, which are compiled one after the other.
  unfoldable pub some_match : String → List String → Outcome Bool
  some_match origin [] = ok false
  some_match origin (allowed ∷ rest) =
      let later = some_match origin rest in
      elim (engine.compile allowed) [
        | none ↦ err (from Cause.regex_syntax (engine.compile_error allowed))
        | some re ↦ if engine.is_match re origin then ok true else later
      ]

  validate_in : CorsAllowedOrigins → Option Bool → String → Outcome Bool
  unfolding some_match
  validate_in every_origin none origin = ok true
  validate_in every_origin (some b) origin = ok b
  validate_in (origins v) allow_credentials origin = some_match origin v

  unfoldable pub validate_origin : CorsConfig → String → Outcome Bool
  unfolding validate_in
  validate_origin config origin = validate_in config.allowed_origins config.allow_credentials origin

module _ (http : Http) where
  -- `HeaderValue::from_str(text)?`.
  value_of : String → Outcome http.HeaderValue
  value_of s = ok_or (http.of_str s) (from Cause.header_value http.of_str_error)

  set_headers : Option CorsAllowHeader → http.HeaderMap → http.HeaderMap × Outcome Done
  unfolding set value_of
  set_headers none m = (m, ok tt)
  set_headers (some names) m =
      set http m "access-control-allow-headers" (value_of (headers_text names))

  set_credentials : Option Bool → http.HeaderMap → http.HeaderMap × Outcome Done
  unfolding set static_value
  set_credentials (some true) m =
      set http m "access-control-allow-credentials" (static_value http "true")
  set_credentials _ m = (m, ok tt)

  set_max_age : Option ℤ → http.HeaderMap → http.HeaderMap × Outcome Done
  unfolding set value_of
  set_max_age none m = (m, ok tt)
  set_max_age (some age) m =
      if lt_ℤ (pos 0) age
      then set http m "access-control-max-age" (value_of (int_text age))
      else (m, ok tt)

  vary : http.HeaderMap → Outcome http.HeaderValue → http.HeaderMap × Outcome Done
  vary m (ok v) = (http.append m "vary" v, ok tt)
  vary m (err e) = (m, err e)
  vary m panic = (m, panic)

  set_vary : CorsAllowedOrigins → http.HeaderMap → http.HeaderMap × Outcome Done
  unfolding vary static_value
  set_vary every_origin m = (m, ok tt)
  set_vary (origins v) m = vary m (static_value http "Origin")

  unfoldable pub handle_before_response :
      CorsConfig → http.HeaderMap → http.HeaderMap × Outcome Done
  unfolding set value_of origins_text methods_text set_headers set_credentials set_max_age set_vary
  handle_before_response config m =
      and_then
        (set http m "access-control-allow-origin" (value_of (origins_text config.allowed_origins)))
        λ m1.
          and_then
            (set http m1 "access-control-allow-methods"
              (value_of (methods_text config.allowed_methods)))
            λ m2. and_then (set_headers config.allowed_headers m2) λ m3.
              and_then (set_credentials config.allow_credentials m3) λ m4.
                and_then (set_max_age config.max_age m4) λ m5. set_vary config.allowed_origins m5

module _ (http : Http) (codecs : Codecs) (engine : RegexEngine) (build_error : String) where
  -- `builder.header(name, text)`, whose error `body` reports.
  header : String → String → Option http.HeaderMap → Option http.HeaderMap
  header name text none = none
  header name text (some m) = elim (http.of_str text) [
    | none ↦ none
    | some v ↦ some (http.append m name v)
  ]

  credentials_header : Option Bool → Option http.HeaderMap → Option http.HeaderMap
  unfolding header
  credentials_header (some true) m = header "access-control-allow-credentials" "true" m
  credentials_header _ m = m

  max_age_header : Option ℤ → Option http.HeaderMap → Option http.HeaderMap
  unfolding header int_text
  max_age_header none m = m
  max_age_header (some age) m = header "access-control-max-age" (int_text age) m

  -- `allowed_headers.iter()` of an option: one text or none.
  listed : Option CorsAllowHeader → String
  unfolding headers_text
  listed none = ""
  listed (some names) = headers_text names

  response : ℕ → Option http.HeaderMap → Outcome (Response http codecs)
  response status none = err (from Cause.http_message build_error)
  response status (some m) =
      ok (record { status = status; headers = m; body = ok (codecs.of_text "") })

  preflight_headers : CorsConfig → String → Option http.HeaderMap
  unfolding header credentials_header max_age_header listed methods_text
  preflight_headers config origin = max_age_header config.max_age (
      credentials_header config.allow_credentials (
        header "vary" "Origin" (
          header "access-control-allow-origin" origin (
            header "access-control-allow-headers" (listed config.allowed_headers) (
              header "access-control-allow-methods" (methods_text config.allowed_methods)
                (some http.empty))))))

  -- The code asks for the empty text, whatever the origin is.
  unfoldable pub handle_preflight : CorsConfig → String → Outcome (Response http codecs)
  unfolding validate_origin response preflight_headers
  handle_preflight config origin = validate_origin engine config "" >>= λ valid.
      if valid
      then response 403 (some http.empty)
      else response 204 (preflight_headers config origin)
