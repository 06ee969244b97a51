-- ===== src/Proxy/Requests.antt =====
-- A request of a port from its first check to the upstream server.
use silverwind.Prelude.{ℕ, String, ◌≡◌, Option, some, List, ℤ, Outcome, ok, string_eq}
use silverwind.External.{Http, Codecs, Uris, RegexEngine, IpNets, Float}
use silverwind.Authentication.{Crypto}
use silverwind.Destination.{HandlingResult, matched, Shared, get_destination}
use silverwind.Upstream.{Request, Sent, Servers}
use silverwind.Proxy.Adapter.{Clocks, proxy, with_shared}
use silverwind.Proxy.Sent.{IsAsked, after_destination-sent}

module _ (http : Http) (codecs : Codecs) (uris : Uris) (engine : RegexEngine) (float : Float)
    (crypto : Crypto) (nets : IpNets) (first_key : List (String × ℤ) → Option String)
    (poison_error : String) (pick : ℕ → ℕ) (join : String → String → String)
    (servers : Servers http codecs uris) (build_error : String)
    (http_date : ℕ → ℕ → Outcome String) where
  -- If a request makes the proxy send a call to an upstream server, then the choice of the request's
  -- destination admitted it and came to a target. A call of HTTP goes to that target's URI with the
  -- request's method, and waits as long as the target says or, exactly for a request with the headers
  -- of an upgrade, five seconds. A call of a gRPC service goes to the client of that target's
  -- endpoint with the request's body, and its service and method are the first two parts of the
  -- path that are not empty. So a request that a middleware denies, that no route matches or whose
  -- choice fails sends nothing.
  pub proxy-sent :
      (now : Clocks) (ip : String) (port : ℤ) (req : Request http codecs uris)
      (shared : Shared engine float) (call : Sent http codecs uris)
      → (proxy http codecs uris engine float crypto nets first_key poison_error pick join servers
          build_error http_date now ip port req shared).exchange.sent
        ≡ some call
      → (hr : HandlingResult) × ((get_destination http engine crypto nets float first_key
            poison_error pick join now.checks
            (uris.path_and_query req.uri)
            req.method
            ip
            req.headers
            port
            shared).1
          ≡ ok (matched hr))
        × IsAsked http codecs uris req hr call
  unfolding proxy with_shared
  proxy-sent now ip port req shared call s =
      after_destination-sent http codecs uris engine float servers build_error http_date _ _ ip req
        _ _ call s
