-- ===== src/Proxy/Adapter.antt =====
-- rust-proxy/src/proxy/http1/http_proxy.rs: a request of a port, and how its errors become responses.
use silverwind.Prelude.{
  ℕ, String, Bool, true, false, Option, none, some, List, [], ◌∷◌, ℤ, negsuc, Outcome, ok, err,
  panic, ◌>>=◌, string_eq,
}
use silverwind.Errors.{from, Cause, to_string}
use silverwind.External.{Http, Codecs, Uris, RegexEngine, IpNets, Float}
use silverwind.Response.{Response}
use silverwind.Authentication.{Crypto}
use silverwind.Middleware.{Reading}
use silverwind.Destination.{Shared, get_destination}
use silverwind.Upstream.{Request, Servers, Exchange}
use silverwind.Proxy.{Trip, after_destination}

-- What a request leaves of the configuration, the limiters and the breakers, and the exchange.
pub record Journey (http : Http) (codecs : Codecs) (uris : Uris) (engine : RegexEngine)
    (float : Float) : Type 0 where
  pub shared : Shared engine float
  pub exchange : Exchange http codecs uris

-- The clocks that a request reads, of its checks and of its response.
pub record Clocks : Type 0 where
  pub checks : ℕ → Reading
  pub outcomes : ℕ → ℕ
  pub responses : ℕ → ℕ → ℕ

pub data Json : Type 0 where
  text : String → Json
  number : ℤ → Json

module _ (http : Http) (codecs : Codecs) (uris : Uris) (engine : RegexEngine) (float : Float) where
  unfoldable pub with_shared :
      Shared engine float → Trip http codecs uris float → Journey http codecs uris engine float
  with_shared shared trip = record {
    shared = record shared { store = trip.store };
    exchange = trip.exchange;
  }

module _ (http : Http) (codecs : Codecs) (uris : Uris) (engine : RegexEngine) (float : Float)
    (crypto : Crypto) (nets : IpNets) (first_key : List (String × ℤ) → Option String)
    (poison_error : String) (pick : ℕ → ℕ) (join : String → String → String)
    (servers : Servers http codecs uris) (build_error : String)
    (http_date : ℕ → ℕ → Outcome String) where
  unfoldable pub proxy :
      Clocks
      → (ip : String) → ℤ
      → Request http codecs uris
      → Shared engine float
      → Journey http codecs uris engine float
  unfolding with_shared get_destination after_destination
  proxy now ip port req shared =
      let (shared', answer) =
        get_destination http engine crypto nets float first_key poison_error pick join now.checks
          (uris.path_and_query req.uri) req.method ip req.headers port shared in
      with_shared http codecs uris engine float shared' (
        after_destination http codecs uris engine float servers build_error http_date now.outcomes
          now.responses ip req shared'.store answer)

-- `object` writes an object of JSON. The counters and the log are left out.
module _ (http : Http) (codecs : Codecs) (object : List (String × Json) → String) where
  unfoldable pub json_response : ℕ → List (String × Json) → Response http codecs
  json_response status members = record {
    status = status;
    headers = http.empty;
    body = ok (codecs.of_text (object members));
  }

  -- An error of `proxy` is the response 500.
  unfoldable pub or_internal_error : Outcome (Response http codecs) → Outcome (Response http codecs)
  unfolding json_response to_string
  or_internal_error (ok r) = ok r
  or_internal_error (err e) = ok (
      json_response 500
        (("response_code", number (negsuc 0)) ∷ ("response_object", text (to_string e)) ∷ []))
  or_internal_error panic = panic

  -- `current_time.elapsed()?`, which fails when the clock was set back.
  unfoldable pub timed :
      Option String → Outcome (Response http codecs) → Outcome (Response http codecs)
  unfolding or_internal_error
  timed none response = or_internal_error response
  timed (some message) response =
      or_internal_error response >>= λ r. err (from Cause.system_time message)

  -- An error that is left is the response 404.
  unfoldable pub or_not_found : Outcome (Response http codecs) → Outcome (Response http codecs)
  unfolding json_response to_string
  or_not_found (ok r) = ok r
  or_not_found (err e) = ok (json_response 404 (("error", text (to_string e)) ∷ []))
  or_not_found panic = panic

  -- `proxy_adapter` on a call of `proxy`, if the histogram is there to time it.
  unfoldable pub proxy_adapter :
      {uris : Uris} {engine : RegexEngine} {float : Float}
      → Bool
      → Option String
      → (Shared engine float → Journey http codecs uris engine float)
      → Shared engine float
      → Journey http codecs uris engine float
  unfolding timed or_not_found
  proxy_adapter false elapsed call shared = record {
    shared = shared;
    exchange = record {
      sent = none;
      response = or_not_found (err "HTTP_REQUEST_DURATION_SECONDS");
    };
  }
  proxy_adapter true elapsed call shared = record (call shared) {
    exchange = record (call shared).exchange {
      response = or_not_found (timed elapsed (call shared).exchange.response);
    };
  }
