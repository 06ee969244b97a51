-- ===== src/Proxy/Sent.antt =====
-- What the proxy sends to an upstream server, and for which requests.
use silverwind.Prelude.{
  ℕ, String, ◌≡◌, refl, sym, ap, ◌∙◌, inl, inr, Bool, true, false, not, ◌&&◌, Option, none, some,
  List, [], ◌∷◌, str_eq, if◌then◌else◌, Bool-cases, select, Outcome, ok, err, panic, ok_or, Done,
  ok-inj, some-inj, none≢some, string_eq, is_some, split,
}
use mathlib.Core.Path.{subst}
use silverwind.Prelude.Loops.{bound-ok}
use silverwind.External.{Http, Codecs, Uris, RegexEngine, Float}
use silverwind.Response.{Response}
use silverwind.Cors.{CorsConfig}
use silverwind.Router.Base.{BaseRoute, StaticFileRoute, RouterDestination}
use silverwind.Middleware.{MiddleWares, Store}
use silverwind.Destination.{HandlingResult, DestinationResult, matched, not_allowed, no_match_found}
use silverwind.Upstream.{
  Sent, to_server, to_grpc, GrpcCall, contains_key, Request, Call, Servers, Exchange,
}
use silverwind.Websocket.Sent.{IsUpgraded, server_upgrade-Upgrades}
use silverwind.Proxy.{
  Trip, Reply, reached, returned, route_request, finish, forwarded, after_destination, preflight,
  upstream_request, ask, asked, changed, is_websocket, passed, with_host, to_host, to_uri,
  unanswered, unsent, upstream_call, from_file, from_grpc, grpc_call, grpc_reply, names_of,
}

module _ (http : Http) (codecs : Codecs) (uris : Uris) where
  -- The headers of a request that asks for an upgrade of its connection.
  abbrev pub is_upgrade : Request http codecs uris → Bool
  is_upgrade req =
      is_some (http.get req.headers "connection")
      && is_some (http.get req.headers "sec-websocket-key")

  -- What is sent, for the request that it is sent for and with the time that is waited: a request
  -- with the method of that one to the target's URI, or a call of the target's endpoint with the
  -- request's body, which names the service and the method by the first two parts of the path.
  abbrev IsAskedIn : ℕ → Request http codecs uris → HandlingResult → Sent http codecs uris → Type 0
  IsAskedIn timeout req hr (to_server call) =
      (uris.parse hr.request_path ≡ some call.request.uri)
      × (call.request.method ≡ req.method)
      × (call.timeout ≡ timeout)
  IsAskedIn timeout req hr (to_grpc call) =
      (base_route : BaseRoute) × (rest : List String) × (hr.router_destination
        ≡ RouterDestination.grpc base_route)
      × (call.endpoint ≡ base_route.endpoint)
      × (req.body ≡ ok call.body)
      × (select (λ s. not (str_eq s "")) (split 47 hr.request_path)
          ≡ call.service ∷ call.method ∷ rest)

  abbrev pub IsAsked : Request http codecs uris → HandlingResult → Sent http codecs uris → Type 0
  IsAsked req hr call = IsAskedIn (if is_upgrade req then 5000 else hr.timeout) req hr call

  exchange_of : Reply http codecs uris → Exchange http codecs uris
  exchange_of (reached x) = x
  exchange_of (returned x) = x

module _ (http : Http) (codecs : Codecs) (uris : Uris) (engine : RegexEngine) (float : Float)
    (servers : Servers http codecs uris) (build_error : String)
    (http_date : ℕ → ℕ → Outcome String) where
  Asks : ℕ → Request http codecs uris → HandlingResult → Exchange http codecs uris → Type 0
  Asks n req hr x =
      (call : Sent http codecs uris) → x.sent ≡ some call → IsAskedIn http codecs uris n req hr call

  passed-target :
      (req request : Request http codecs uris) (uri : uris.Uri) (h : http.HeaderMap × Outcome Done)
      → passed http codecs uris engine float servers build_error http_date req uri h ≡ ok request
      → (some uri ≡ some request.uri) × (request.method ≡ req.method)
  unfolding passed
  passed-target req request uri (m, ok u) e = (
    ap (λ (r : Request http codecs uris). some r.uri) (ok-inj e),
    ap (λ (r : Request http codecs uris). r.method) (sym (ok-inj e)),
  )
  passed-target req request uri (m, err x) e = cc
  passed-target req request uri (m, panic) e = cc

  with_host-target :
      (ip : String) (hr : HandlingResult) (req request : Request http codecs uris) (uri : uris.Uri)
      (v : Option http.HeaderValue)
      → with_host http codecs uris engine float servers build_error http_date ip hr req uri v
        ≡ ok request
      → (some uri ≡ some request.uri) × (request.method ≡ req.method)
  unfolding with_host
  with_host-target ip hr req request uri none e = cc
  with_host-target ip hr req request uri (some v) e = passed-target req request uri _ e

  to_host-target :
      (ip : String) (hr : HandlingResult) (req request : Request http codecs uris) (uri : uris.Uri)
      (host : Option String)
      → to_host http codecs uris engine float servers build_error http_date ip hr req uri host
        ≡ ok request
      → (some uri ≡ some request.uri) × (request.method ≡ req.method)
  unfolding to_host
  to_host-target ip hr req request uri none e = cc
  to_host-target ip hr req request uri (some host) e = with_host-target ip hr req request uri _ e

  to_uri-target :
      (ip : String) (hr : HandlingResult) (req request : Request http codecs uris)
      (uri : Option uris.Uri)
      → to_uri http codecs uris engine float servers build_error http_date ip hr req uri
        ≡ ok request
      → (uri ≡ some request.uri) × (request.method ≡ req.method)
  unfolding to_uri
  to_uri-target ip hr req request none e = cc
  to_uri-target ip hr req request (some uri) e = to_host-target ip hr req request uri _ e

  asked-sent :
      (hr : HandlingResult) (call : Call http codecs uris)
      (answer : Option (Outcome (Response http codecs)))
      → (exchange_of http codecs uris (
          asked http codecs uris engine float servers build_error http_date hr.request_path call
            answer)).sent
        ≡ some (to_server call)
  unfolding asked unanswered exchange_of
  asked-sent hr call none = refl
  asked-sent hr call (some r) = refl

  ask-Asks :
      (ip : String) (hr : HandlingResult) (req : Request http codecs uris)
      (request : Outcome (Request http codecs uris))
      → upstream_request http codecs uris engine float servers build_error http_date ip hr req
        ≡ request
      → Asks hr.timeout req hr (
          exchange_of http codecs uris
            (ask http codecs uris engine float servers build_error http_date hr request))
  unfolding Asks ask exchange_of unsent upstream_call upstream_request
  ask-Asks ip hr req (ok request) e call s =
      let (target, method) = to_uri-target ip hr req request _ e in
      subst (IsAskedIn http codecs uris hr.timeout req hr) (some-inj (sym (asked-sent hr _ _) ∙ s))
        (target, method, refl)
  ask-Asks ip hr req (err x) e call s = cc
  ask-Asks ip hr req panic e call s = cc

  from_file-sent :
      (static_file : StaticFileRoute) (request : Outcome (Request http codecs uris))
      → (exchange_of http codecs uris (
          from_file http codecs uris engine float servers build_error http_date static_file
            request)).sent
        ≡ none
  unfolding from_file exchange_of unsent
  from_file-sent static_file (ok request) = refl
  from_file-sent static_file (err e) = refl
  from_file-sent static_file panic = refl

  grpc_reply-sent :
      (call : GrpcCall codecs) (response : Outcome (Response http codecs))
      → (exchange_of http codecs uris (
          grpc_reply http codecs uris engine float servers build_error http_date call
            response)).sent
        ≡ some (to_grpc call)
  unfolding grpc_reply exchange_of
  grpc_reply-sent call (ok r) = refl
  grpc_reply-sent call (err e) = refl
  grpc_reply-sent call panic = refl

  names_of-first :
      (path : String) (parts : List String) (n : String × String)
      → names_of http codecs uris engine float servers build_error http_date path parts ≡ ok n
      → (rest : List String) × (parts ≡ n.0 ∷ n.1 ∷ rest)
  unfolding names_of
  names_of-first path [] n e = cc
  names_of-first path (a ∷ []) n e = cc
  names_of-first path (a ∷ b ∷ rest) n e =
      (rest, ap (λ (m : String × String). m.0 ∷ m.1 ∷ rest) (ok-inj e))

  from_grpc-Asks :
      (hr : HandlingResult) (base_route : BaseRoute) (req : Request http codecs uris)
      (made : Outcome (servers.GrpcClient × GrpcCall codecs))
      → hr.router_destination ≡ RouterDestination.grpc base_route
      → grpc_call http codecs uris engine float servers build_error http_date base_route
          hr.request_path req
        ≡ made
      → Asks hr.timeout req hr (
          exchange_of http codecs uris
            (from_grpc http codecs uris engine float servers build_error http_date made))
  unfolding Asks from_grpc exchange_of unsent grpc_call
  from_grpc-Asks hr base_route req (ok (client, c)) d e call s =
      let (get_client, g, e1) = bound-ok (ok_or servers.grpc "") _ (client, c) e in
      let (found, f, e2) = bound-ok (get_client base_route.endpoint) _ (client, c) e1 in
      let (bytes, b, e3) = bound-ok req.body _ (client, c) e2 in
      let (n, named, e4) =
        bound-ok
          (names_of http codecs uris engine float servers build_error http_date hr.request_path
            (select (λ s. not (str_eq s "")) (split 47 hr.request_path)))
          _ (client, c) e3 in
      let (rest, parts) = names_of-first hr.request_path _ n named in
      subst (IsAskedIn http codecs uris hr.timeout req hr)
        (ap (λ (p : servers.GrpcClient × GrpcCall codecs). to_grpc p.1) (ok-inj e4)
          ∙ some-inj (sym (grpc_reply-sent c _) ∙ s))
        (base_route, rest, d, refl, b, parts)
  from_grpc-Asks hr base_route req (err x) d e call s = cc
  from_grpc-Asks hr base_route req panic d e call s = cc

  none-Asks :
      (n : ℕ) (req : Request http codecs uris) (hr : HandlingResult) (x : Exchange http codecs uris)
      → x.sent ≡ none
      → Asks n req hr x
  unfolding Asks
  none-Asks n req hr x e call s = absurd (none≢some (sym e ∙ s))

  route_request-Asks :
      (ip : String) (hr : HandlingResult) (d : RouterDestination) (req : Request http codecs uris)
      → hr.router_destination ≡ d
      → Asks hr.timeout req hr (
          exchange_of http codecs uris
            (route_request http codecs uris engine float servers build_error http_date ip hr d req))
  unfolding route_request
  route_request-Asks ip hr (RouterDestination.file static_file) req e =
      none-Asks hr.timeout req hr _ (from_file-sent static_file _)
  route_request-Asks ip hr (RouterDestination.http base_route) req e = ask-Asks ip hr req _ refl
  route_request-Asks ip hr (RouterDestination.grpc base_route) req e =
      from_grpc-Asks hr base_route req _ e refl

  finish-sent :
      (now : ℕ → ℕ) (then_now : ℕ → ℕ → ℕ) (path : String) (inbound : http.HeaderMap)
      (mws : Option (List MiddleWares)) (store : Store float) (reply : Reply http codecs uris)
      → (finish http codecs uris engine float servers build_error http_date now then_now path
          inbound mws store reply).exchange.sent
        ≡ (exchange_of http codecs uris reply).sent
  unfolding finish exchange_of changed
  finish-sent now then_now path inbound mws store (returned x) = refl
  finish-sent now then_now path inbound none store (reached x) = refl
  finish-sent now then_now path inbound (some []) store (reached x) = refl
  finish-sent now then_now path inbound (some (mw ∷ mws)) store (reached x) = refl

  -- The time that is waited.
  abbrev time_for : Request http codecs uris → HandlingResult → ℕ
  time_for req hr = if is_upgrade http codecs uris req then 5000 else hr.timeout

  is_websocket-is_upgrade :
      (req : Request http codecs uris) (b : Bool)
      → is_upgrade http codecs uris req ≡ b
      → is_websocket http codecs uris engine float servers build_error http_date req ≡ b
  unfolding is_websocket contains_key
  is_websocket-is_upgrade req b e = e

  upgraded-IsAsked :
      (req : Request http codecs uris) (hr : HandlingResult) (call : Sent http codecs uris)
      → IsUpgraded http codecs uris servers req hr.request_path call
      → IsAskedIn http codecs uris 5000 req hr call
  upgraded-IsAsked req hr (to_server call) h = h
  upgraded-IsAsked req hr (to_grpc call) h = absurd h

  forwarded-Asks :
      (now : ℕ → ℕ) (then_now : ℕ → ℕ → ℕ) (ip : String) (hr : HandlingResult)
      (req : Request http codecs uris) (store : Store float)
      → Asks
          (time_for req hr)
          req
          hr
          (forwarded http codecs uris engine float servers build_error http_date now then_now ip hr
            req store).exchange
  unfolding forwarded Asks
  forwarded-Asks now then_now ip hr req store call =
      elim (Bool-cases (is_upgrade http codecs uris req)) [
        | inl upgrade ↦ rw (is_websocket-is_upgrade req true upgrade) (λ s.
            upgraded-IsAsked req hr call
              (server_upgrade-Upgrades http codecs uris servers req hr.request_path call s))
        | inr direct ↦ rw (is_websocket-is_upgrade req false direct) (λ s.
            route_request-Asks ip hr hr.router_destination req refl call (
              sym (finish-sent now then_now hr.request_path req.headers hr.middlewares store _)
              ∙ s))
      ]

  preflight-Asks :
      (b : Bool) (config : Option CorsConfig) (store : Store float)
      (rest : Trip http codecs uris float) (req : Request http codecs uris) (hr : HandlingResult)
      → Asks (time_for req hr) req hr rest.exchange
      → Asks
          (time_for req hr)
          req
          hr
          (preflight http codecs uris engine float servers build_error http_date b config store
            rest).exchange
  unfolding preflight Asks unsent
  preflight-Asks false config store rest req hr h = h
  preflight-Asks true none store rest req hr h = h
  preflight-Asks true (some c) store rest req hr h = λ call s. absurd (none≢some s)

  pub after_destination-sent :
      (now : ℕ → ℕ) (then_now : ℕ → ℕ → ℕ) (ip : String) (req : Request http codecs uris)
      (store : Store float) (answer : Outcome (DestinationResult http))
      (call : Sent http codecs uris)
      → (after_destination http codecs uris engine float servers build_error http_date now then_now
          ip req store answer).exchange.sent
        ≡ some call
      → (hr : HandlingResult) × (answer ≡ ok (matched hr)) × IsAsked http codecs uris req hr call
  unfolding after_destination unsent Asks
  after_destination-sent now then_now ip req store (ok (matched hr)) call s = (
    hr,
    refl,
    preflight-Asks _ _ store _ req hr (forwarded-Asks now then_now ip hr req store) call s,
  )
  after_destination-sent now then_now ip req store (ok (not_allowed d)) call s =
      absurd (none≢some s)
  after_destination-sent now then_now ip req store (ok no_match_found) call s = absurd (none≢some s)
  after_destination-sent now then_now ip req store (err e) call s = absurd (none≢some s)
  after_destination-sent now then_now ip req store panic call s = absurd (none≢some s)
