-- ===== src/Denial.antt =====
-- rust-proxy/src/middleware/middlewares.rs: what a check of a request answers.
use silverwind.Prelude.{ℕ, String, Bool, true, false, Option, none, some, string_eq}
use silverwind.External.{Http}

pub record Denial (http : Http) : Type 0 where
  pub status : ℕ
  pub headers : http.HeaderMap
  pub body : String

pub data CheckResult (http : Http) : Type 0 where
  allowed : CheckResult http
  denied : Denial http → CheckResult http

unfoldable pub is_allowed : {http : Http} → CheckResult http → Bool
is_allowed allowed = true
is_allowed (denied d) = false

unfoldable pub get_denial : {http : Http} → CheckResult http → Option (Denial http)
get_denial allowed = none
get_denial (denied d) = some d
