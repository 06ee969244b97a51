-- ===== src/Proxy/Records.antt =====
-- What the circuit breakers record of a request that the proxy sends to an upstream server.
use silverwind.Prelude.{ℕ, String, Option, none, some, List, [], Outcome, string_eq}
use silverwind.External.{Http, Codecs, Uris, RegexEngine, Float}
use silverwind.Response.{Response}
use silverwind.Middleware.{MiddleWares, Store, record_all}
use silverwind.Middleware.Responses.{status_of}
use silverwind.Upstream.{Servers, received}

abbrev pub installed : Option (List MiddleWares) → List MiddleWares
installed none = []
installed (some mws) = mws

module _ (http : Http) (codecs : Codecs) (uris : Uris) (engine : RegexEngine) (float : Float)
    (servers : Servers http codecs uris) (build_error : String)
    (http_date : ℕ → ℕ → Outcome String) where
  -- The store after an answer, or after the time ran out.
  abbrev pub outcome_store :
      (ℕ → ℕ)
      → Option (List MiddleWares)
      → Store float
      → Option (Outcome (Response http codecs))
      → Store float
  outcome_store now mws store none = store
  outcome_store now mws store (some response) =
      record_all float now (status_of http codecs http_date (received http codecs uris response))
        (installed mws) store
