-- ===== src/Response.antt =====
-- hyper's Response: what the middlewares change of an upstream server's answer. The body is a
-- stream, which comes to its bytes or fails.
use silverwind.Prelude.{ℕ, String, Outcome, ok, panic, none, some}
use silverwind.External.{Http, Codecs}

pub record Response (http : Http) (codecs : Codecs) : Type 0 where
  pub status : ℕ
  pub headers : http.HeaderMap
  pub body : Outcome codecs.Bytes

-- `HeaderValue::from_static`, which panics at a text that is no value.
unfoldable pub static_value : (http : Http) → String → Outcome http.HeaderValue
static_value http s = elim (http.of_str s) [ none ↦ panic | some v ↦ ok v ]
