-- ===== src/Headers.antt =====
-- rust-proxy/src/middleware/forward_header.rs and request_headers.rs: the two middlewares that
-- change the headers of a request. A header that was changed before an error stays changed.
mod Forwarded
mod Changed
mod Tests
use silverwind.Prelude.{
  ℕ, zero, suc, ◌+◌, ◌-◌, ◌*◌, ◌/◌, ◌%◌, ◌^◌, ◌≤◌, ◌<◌, String, ◌≡◌, refl, sym, ap, ◌∙◌, ◌≢◌, ◌↔◌,
  ◌⊎◌, inl, inr, Bool, true, false, not, ◌&&◌, ◌||◌, Option, none, some, List, [], ◌∷◌, ◌++◌, map,
  arith, eq_iff, eq_refl, ltb, leb, str_eq, ◌==◌, if◌then◌else◌, Bool-cases, Option-cases, lt→ltb,
  le→ltb, le→leb, lt→leb, length, get_elem?, is_empty, any, all, select, replicate, length-append,
  get_elem?_lt, All, All-get_elem?, All-select, select-holds, ℤ, pos, negsuc, to_u32, as_i32,
  add_i32, sub_i32, lt_ℤ, le_ℤ, min_ℤ, add_i32_pos, sub_i32_pos, as_i32_pos, Outcome, ok, err,
  panic, ◌>>=◌, ok_or, Outcome-cases, Done, Eq, string_eq, ◌⧺◌, contains_char, strip_prefix,
  is_some, starts_with, split, decimal,
}
use silverwind.Errors.{from, Cause}
use silverwind.External.{Http}

pub record RequestHeaders : Type 0 where
  -- A `HashMap`, in its order of iteration.
  pub add : List (String × String)
  pub remove : List String

module _ (http : Http) where
  -- `s.parse()?` of a header value.
  value_of : String → Outcome http.HeaderValue
  value_of s = ok_or (http.of_str s) (from Cause.header_value http.of_str_error)

  -- `headers_mut().insert(name, value?)`.
  unfoldable pub set :
      http.HeaderMap → String → Outcome http.HeaderValue → http.HeaderMap × Outcome Done
  set m name (ok v) = (http.insert m name v, ok tt)
  set m name (err e) = (m, err e)
  set m name panic = (m, panic)

  -- The new value of the list of addresses.
  chained : Option http.HeaderValue → String → Outcome http.HeaderValue
  unfolding value_of
  chained none client_ip = value_of client_ip
  chained (some existing_forwarded) client_ip =
      ok_or (http.to_str existing_forwarded) (from Cause.header_text http.to_str_error) >>= λ s.
      value_of (s ⧺ ", " ⧺ client_ip)

  forward : http.HeaderMap → String → Outcome http.HeaderValue → http.HeaderMap × Outcome Done
  unfolding set chained
  forward m client_ip (ok v) =
      let named = http.insert m "X-Real-IP" v in
      set named "X-Forwarded-For" (chained (http.get named "X-Forwarded-For") client_ip)
  forward m client_ip (err e) = (m, err e)
  forward m client_ip panic = (m, panic)

  unfoldable pub handle_before_request : String → http.HeaderMap → http.HeaderMap × Outcome Done
  unfolding forward value_of
  handle_before_request client_ip m = forward m client_ip (value_of client_ip)

  remove_all : List String → http.HeaderMap → http.HeaderMap
  remove_all [] m = m
  remove_all (key ∷ keys) m = remove_all keys (if http.valid_name key then http.remove m key else m)

  bad_name : String → String
  bad_name key = "Invalid header name '" ⧺ key ⧺ "': " ⧺ http.name_error

  bad_value : String → String
  bad_value key = "Invalid header value for '" ⧺ key ⧺ "': " ⧺ http.of_str_error

  add_all : List (String × String) → http.HeaderMap → http.HeaderMap × Outcome Done
  unfolding bad_name bad_value
  add_all [] m = (m, ok tt)
  add_all ((key, value) ∷ entries) m = elim (http.valid_name key) [
    | false ↦ (m, err (bad_name key))
    | true ↦ elim (http.of_str value) [
      | none ↦ (m, err (bad_value key))
      | some v ↦ add_all entries (http.insert m key v)
    ]
  ]

  unfoldable pub handle_request : RequestHeaders → http.HeaderMap → http.HeaderMap × Outcome Done
  unfolding remove_all add_all
  handle_request config m = add_all config.add (remove_all config.remove m)
