-- ===== src/Proxy.antt =====
-- rust-proxy/src/proxy/http1/http_proxy.rs: what becomes of a request, from the choice of its
-- destination to the answer of the client.
pub mod Adapter
pub mod Sent
mod Requests
mod Records
mod Tests
use silverwind.Prelude.{
  ℕ, zero, suc, ◌+◌, ◌-◌, ◌*◌, ◌/◌, ◌%◌, ◌^◌, ◌≤◌, ◌<◌, String, ◌≡◌, refl, sym, ap, ◌∙◌, ◌≢◌, ◌↔◌,
  ◌⊎◌, inl, inr, Bool, true, false, not, ◌&&◌, ◌||◌, Option, none, some, List, [], ◌∷◌, ◌++◌, map,
  arith, eq_iff, eq_refl, ltb, leb, str_eq, ◌==◌, if◌then◌else◌, Bool-cases, Option-cases, lt→ltb,
  le→ltb, le→leb, lt→leb, length, get_elem?, is_empty, any, all, select, replicate, length-append,
  get_elem?_lt, All, All-get_elem?, All-select, select-holds, ℤ, pos, negsuc, to_u32, as_i32,
  add_i32, sub_i32, lt_ℤ, le_ℤ, min_ℤ, add_i32_pos, sub_i32_pos, as_i32_pos, Outcome, ok, err,
  panic, ◌>>=◌, ok_or, Outcome-cases, Done, or_else, and_then, map_err, Eq, string_eq, ◌⧺◌,
  contains_char, strip_prefix, is_some, starts_with, split, decimal, join, ends_with, contains_str,
}
use silverwind.Errors.{from, Cause}
use silverwind.External.{Http, Codecs, Uris, RegexEngine, Float}
use silverwind.Response.{Response}
use silverwind.Denial.{Denial}
use silverwind.Cors.{CorsConfig, handle_preflight}
use silverwind.Router.Base.{BaseRoute, StaticFileRoute, RouterDestination}
use silverwind.Middleware.{MiddleWares, cors, Store, handle_all}
use silverwind.Middleware.Responses.{handle_before_response}
use silverwind.Destination.{HandlingResult, DestinationResult, matched, not_allowed, no_match_found}
use silverwind.Upstream.{
  to_server, to_grpc, GrpcCall, Request, Call, Servers, Exchange, contains_key, received,
}
use silverwind.Websocket.{server_upgrade}

-- `SpireContext::cors_configed`: the first CORS middleware.
first_cors : List MiddleWares → Option CorsConfig
first_cors [] = none
first_cors (cors c ∷ mws) = some c
first_cors (_ ∷ mws) = first_cors mws

unfoldable pub cors_configed : Option (List MiddleWares) → Option CorsConfig
unfolding first_cors
cors_configed none = none
cors_configed (some mws) = first_cors mws

-- What a request leaves: the limiters and breakers, and the exchange.
pub record Trip (http : Http) (codecs : Codecs) (uris : Uris) (float : Float) : Type 0 where
  pub store : Store float
  pub exchange : Exchange http codecs uris

-- `build_error` is the message of a builder's error, and `http_date` writes a time as HTTP does.
-- A value of `res`, which the middlewares get, or the result of a call that returns before them.
pub data Reply (http : Http) (codecs : Codecs) (uris : Uris) : Type 0 where
  reached returned : Exchange http codecs uris → Reply http codecs uris

module _ (http : Http) (codecs : Codecs) (uris : Uris) (engine : RegexEngine) (float : Float)
    (servers : Servers http codecs uris) (build_error : String)
    (http_date : ℕ → ℕ → Outcome String) where
  unsent : Outcome (Response http codecs) → Exchange http codecs uris
  unsent response = record { sent = none; response = response }

  plain : ℕ → String → Response http codecs
  plain status text = record {
    status = status;
    headers = http.empty;
    body = ok (codecs.of_text text);
  }

  denied_response : Denial http → Response http codecs
  unfolding plain
  denied_response denial = record (plain denial.status denial.body) {
    headers = http.extend http.empty denial.headers;
  }

  -- The two tests on the headers before the destination is asked.
  unfoldable pub is_preflight : Request http codecs uris → Bool
  unfolding contains_key
  is_preflight req =
      str_eq req.method "OPTIONS"
      && contains_key http codecs uris req.headers "origin"
      && contains_key http codecs uris req.headers "access-control-request-method"

  unfoldable pub is_websocket : Request http codecs uris → Bool
  unfolding contains_key
  is_websocket req =
      contains_key http codecs uris req.headers "connection"
      && contains_key http codecs uris req.headers "sec-websocket-key"

  -- The request of a file: its path is replaced in the request's own URI.
  file_request : String → Request http codecs uris → Outcome (Request http codecs uris)
  file_request request_path req =
      ok_or (uris.parse_path request_path) (from Cause.uri (uris.parse_error request_path)) >>= λ p.
      ok_or (uris.with_path req.uri p) (from Cause.uri_parts uris.parts_error) >>= λ uri.
      ok (record req { uri = uri })

  -- A body of a file is taken to have no error.
  served : Response http codecs → Outcome (Response http codecs)
  served r = elim r.body [ ok b ↦ ok r | err e ↦ ok (record r { body = panic }) | panic ↦ ok r ]

  route_file : StaticFileRoute → Request http codecs uris → Outcome (Response http codecs)
  unfolding served
  route_file static_file req =
      map_err (from Cause.io) (servers.serve_file static_file.doc_root req) >>= served

  before_request :
      String → Option (List MiddleWares) → http.HeaderMap → http.HeaderMap × Outcome Done
  unfolding handle_all
  before_request ip none m = (m, ok tt)
  before_request ip (some mws) m = if is_empty mws then (m, ok tt) else handle_all http ip mws m

  -- The request as it goes to the upstream server: its target, the host, and the middlewares.
  passed :
      Request http codecs uris
      → uris.Uri
      → http.HeaderMap × Outcome Done
      → Outcome (Request http codecs uris)
  passed req uri (m, ok u) = ok (record req { uri = uri; headers = m })
  passed req uri (m, err e) = err e
  passed req uri (m, panic) = panic

  with_host :
      String
      → HandlingResult
      → Request http codecs uris
      → uris.Uri
      → Option http.HeaderValue
      → Outcome (Request http codecs uris)
  unfolding passed before_request
  with_host ip hr req uri none = err (from Cause.header_value http.of_str_error)
  with_host ip hr req uri (some v) =
      passed req uri (before_request ip hr.middlewares (http.insert req.headers "host" v))

  to_host :
      String
      → HandlingResult
      → Request http codecs uris
      → uris.Uri
      → Option String
      → Outcome (Request http codecs uris)
  unfolding with_host
  to_host ip hr req uri none = err "Uri to host cause error"
  to_host ip hr req uri (some host) = with_host ip hr req uri (http.of_str host)

  to_uri :
      String
      → HandlingResult
      → Request http codecs uris
      → Option uris.Uri
      → Outcome (Request http codecs uris)
  unfolding to_host
  to_uri ip hr req none = err (from Cause.uri (uris.parse_error hr.request_path))
  to_uri ip hr req (some uri) = to_host ip hr req uri (uris.host uri)

  unfoldable pub upstream_request :
      String → HandlingResult → Request http codecs uris → Outcome (Request http codecs uris)
  unfolding to_uri
  upstream_request ip hr req = to_uri ip hr req (uris.parse hr.request_path)

  unfoldable pub upstream_call : HandlingResult → Request http codecs uris → Call http codecs uris
  unfolding contains_str
  upstream_call hr request = record {
    https = contains_str hr.request_path "https";
    timeout = hr.timeout;
    request = request;
  }

  unanswered : String → Call http codecs uris → Exchange http codecs uris
  unanswered request_path call = record {
    sent = some (to_server call);
    response = err ("Request time out,the uri is " ⧺ request_path);
  }

  asked :
      String
      → Call http codecs uris
      → Option (Outcome (Response http codecs))
      → Reply http codecs uris
  unfolding received unanswered
  asked request_path call none = returned (unanswered request_path call)
  asked request_path call (some response) =
      reached
        (record { sent = some (to_server call); response = received http codecs uris response })

  ask : HandlingResult → Outcome (Request http codecs uris) → Reply http codecs uris
  unfolding asked upstream_call unsent
  ask hr (ok request) =
      let call = upstream_call hr request in asked hr.request_path call (servers.answer call)
  ask hr (err e) = returned (unsent (err e))
  ask hr panic = returned (unsent panic)

  from_file : StaticFileRoute → Outcome (Request http codecs uris) → Reply http codecs uris
  unfolding route_file unsent
  from_file static_file (ok request) = reached (unsent (route_file static_file request))
  from_file static_file (err e) = returned (unsent (err e))
  from_file static_file panic = returned (unsent panic)

  -- The first two parts of the path that are not empty.
  names_of : String → List String → Outcome (String × String)
  names_of request_path (service ∷ method ∷ rest) = ok (service, method)
  names_of request_path _ = err request_path

  grpc_response : String → Outcome (Response http codecs)
  unfolding plain
  grpc_response text =
      ok_or (http.of_str "application/json") (from Cause.http_message build_error) >>= λ v.
      ok (record (plain 200 text) { headers = http.append http.empty "content-type" v })

  -- The call of a gRPC service, with the client that it is handed to.
  grpc_call :
      BaseRoute → String → Request http codecs uris → Outcome (servers.GrpcClient × GrpcCall codecs)
  unfolding names_of split
  grpc_call base_route request_path req = ok_or servers.grpc "" >>= λ get_client.
      get_client base_route.endpoint >>= λ client. req.body >>= λ bytes.
      names_of request_path (select (λ s. not (str_eq s "")) (split 47 request_path))
      >>= λ (service, method). ok (
        client,
        record { endpoint = base_route.endpoint; service = service; method = method; body = bytes },
      )

  -- An error returns before the middlewares get the response.
  grpc_reply : GrpcCall codecs → Outcome (Response http codecs) → Reply http codecs uris
  grpc_reply call (ok r) = reached (record { sent = some (to_grpc call); response = ok r })
  grpc_reply call (err e) = returned (record { sent = some (to_grpc call); response = err e })
  grpc_reply call panic = returned (record { sent = some (to_grpc call); response = panic })

  from_grpc : Outcome (servers.GrpcClient × GrpcCall codecs) → Reply http codecs uris
  unfolding grpc_reply grpc_response unsent
  from_grpc (ok (client, call)) =
      grpc_reply call
        (servers.do_request client call.service call.method call.body >>= grpc_response)
  from_grpc (err e) = returned (unsent (err e))
  from_grpc panic = returned (unsent panic)

  unfoldable pub route_request :
      String
      → HandlingResult
      → RouterDestination
      → Request http codecs uris
      → Reply http codecs uris
  unfolding from_file file_request ask upstream_request from_grpc grpc_call
  route_request ip hr (RouterDestination.file static_file) req =
      from_file static_file (file_request hr.request_path req)
  route_request ip hr (RouterDestination.http base_route) req = ask hr (upstream_request ip hr req)
  route_request ip hr (RouterDestination.grpc base_route) req =
      from_grpc (grpc_call base_route hr.request_path req)

  changed :
      Exchange http codecs uris
      → Store float × Outcome (Response http codecs) × Outcome Done
      → Trip http codecs uris float
  changed x (store, response, answer) = record {
    store = store;
    exchange = record x { response = answer >>= λ u. response };
  }

  -- The middlewares get the response, if there are any and it reached them.
  unfoldable pub finish :
      (ℕ → ℕ)
      → (ℕ → ℕ → ℕ)
      → String
      → http.HeaderMap
      → Option (List MiddleWares)
      → Store float
      → Reply http codecs uris
      → Trip http codecs uris float
  unfolding changed handle_before_response
  finish now then_now path inbound mws store (returned x) = record { store = store; exchange = x }
  finish now then_now path inbound none store (reached x) = record { store = store; exchange = x }
  finish now then_now path inbound (some mws) store (reached x) =
      if is_empty mws
      then record { store = store; exchange = x }
      else changed x (
          handle_before_response http codecs http_date float now then_now path inbound mws
            x.response store)

  -- A request whose destination is known, from the test for an upgrade on.
  forwarded :
      (ℕ → ℕ)
      → (ℕ → ℕ → ℕ)
      → String
      → HandlingResult
      → Request http codecs uris
      → Store float
      → Trip http codecs uris float
  unfolding is_websocket server_upgrade finish route_request
  forwarded now then_now ip hr req store =
      if is_websocket req
      then record {
        store = store;
        exchange = server_upgrade http codecs uris servers req hr.request_path;
      }
      else finish now then_now hr.request_path req.headers hr.middlewares store
          (route_request ip hr hr.router_destination req)

  preflight :
      Bool
      → Option CorsConfig
      → Store float
      → Trip http codecs uris float
      → Trip http codecs uris float
  unfolding unsent handle_preflight
  preflight true (some config) store rest = record {
    store = store;
    exchange = unsent (handle_preflight http codecs engine build_error config "");
  }
  preflight _ _ store rest = rest

  unfoldable pub after_destination :
      (ℕ → ℕ)
      → (ℕ → ℕ → ℕ)
      → String
      → Request http codecs uris
      → Store float
      → Outcome (DestinationResult http)
      → Trip http codecs uris float
  unfolding unsent plain denied_response preflight is_preflight cors_configed forwarded
  after_destination now then_now ip req store (ok (matched hr)) =
      preflight (is_preflight req) (cors_configed hr.middlewares) store
        (forwarded now then_now ip hr req store)
  after_destination now then_now ip req store (ok (not_allowed denial)) = record {
    store = store;
    exchange = unsent (ok (denied_response denial));
  }
  after_destination now then_now ip req store (ok no_match_found) = record {
    store = store;
    exchange = unsent (ok (plain 404 "Not Found"));
  }
  after_destination now then_now ip req store (err e) = record {
    store = store;
    exchange = unsent (err e);
  }
  after_destination now then_now ip req store panic = record {
    store = store;
    exchange = unsent panic;
  }
