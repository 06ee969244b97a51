-- ===== src/HealthCheck/Requests.antt =====
-- rust-proxy/src/health_check/health_check_task.rs: a round of health checks of a route, from the
-- requests to the marks. The timer that starts the rounds is left out.
use silverwind.Prelude.{
  ℕ, ◌-◌, ◌^◌, String, ◌≡◌, refl, inl, inr, true, Option, none, some, List, [], ◌∷◌, map, eq_refl,
  str_eq, Bool-cases, any, All, ℤ, pos, negsuc, Outcome, ok, err, panic, ◌>>=◌, ok_or, Done, ok-inj,
  string_eq,
}
use mathlib.Core.Path.{subst}
use silverwind.Prelude.Loops.{bound-ok}
use silverwind.Errors.{from, Cause}
use silverwind.External.{RegexEngine, Urls, Uris}
use silverwind.Router.Base.{BaseRoute}
use silverwind.Router.{get_all_route}
use silverwind.Middleware.{Cell}
use silverwind.Route.{
  RouteConfig, HealthCheckType, http_get, redis, mysql, HttpHealthCheckParam, BaseHealthCheckParam,
}
use silverwind.Config.{AppConfig}
use silverwind.HealthCheck.{record_answers}

-- `n as u64` of an `i32`.
as_u64 : ℤ → ℕ
as_u64 (pos n) = n
as_u64 (negsuc n) = 2 ^ 64 - 1 - n

unfoldable pub get_base_param : HealthCheckType → BaseHealthCheckParam
get_base_param (http_get p) = p.base_health_check_param
get_base_param (redis p) = p
get_base_param (mysql p) = p

-- `answer` is what the client of HTTP comes to, for a URI and a time in milliseconds, and `order`
-- the order in which the requests end.
module _ (engine : RegexEngine) (urls : Urls) (uris : Uris) (build_error : String)
    (answer : uris.Uri → ℕ → Outcome ℕ)
    (order : List (String × Outcome ℕ) → List (String × Outcome ℕ)) where
  -- The URL that is asked, or none for a target that is passed over.
  asked_url : String → String → Option urls.Url
  asked_url path endpoint = elim (urls.parse endpoint) [
    | none ↦ none
    | some host ↦ urls.join host path
  ]

  -- A URL that is no URI ends the round.
  add_request :
      String
      → Option urls.Url
      → Outcome (List (String × uris.Uri))
      → Outcome (List (String × uris.Uri))
  add_request endpoint none rest = rest
  add_request endpoint (some joined) rest =
      ok_or (uris.parse (urls.text joined)) (from Cause.http_message build_error) >>= λ uri.
      rest >>= λ later. ok ((endpoint, uri) ∷ later)

  unfoldable pub requests : String → List BaseRoute → Outcome (List (String × uris.Uri))
  unfolding asked_url add_request
  requests path [] = ok []
  requests path (item ∷ items) =
      add_request item.endpoint (asked_url path item.endpoint) (requests path items)

  responses : ℕ → List (String × uris.Uri) → List (String × Outcome ℕ)
  responses time_out = map (λ (r : String × uris.Uri). (r.0, answer r.1 time_out))

  round :
      String
      → String
      → ℕ
      → Cell (AppConfig engine)
      → Outcome (List (String × uris.Uri))
      → Cell (AppConfig engine) × Outcome Done
  unfolding responses record_answers
  round poison_error route_id time_out c (ok sent) =
      record_answers engine poison_error route_id (order (responses time_out sent)) c
  round poison_error route_id time_out c (err e) = (c, err e)
  round poison_error route_id time_out c panic = (c, panic)

  unfoldable pub do_http_health_check :
      String
      → HttpHealthCheckParam
      → RouteConfig engine
      → ℤ
      → Cell (AppConfig engine)
      → Cell (AppConfig engine) × Outcome Done
  unfolding round requests get_all_route as_u64
  do_http_health_check poison_error param route timeout_number c =
      round poison_error route.route_id (as_u64 timeout_number) c
        (get_all_route route.router >>= requests param.path)

  -- The routine that a task repeats.
  unfoldable pub task :
      String
      → RouteConfig engine
      → HealthCheckType
      → Cell (AppConfig engine)
      → Cell (AppConfig engine) × Outcome Done
  unfolding do_http_health_check get_base_param
  task poison_error route (http_get param) c =
      do_http_health_check poison_error param route (get_base_param (http_get param)).timeout c
  task poison_error route (redis param) c = (c, ok tt)
  task poison_error route (mysql param) c = (c, ok tt)

  -- The target of a request is one of the router's, and its endpoint is a URL.
  abbrev IsTarget : List BaseRoute → String × uris.Uri → Type 0
  IsTarget items r =
      (any (λ (b : BaseRoute). str_eq b.endpoint r.0) items ≡ true)
      × ((host : urls.Url) × (urls.parse r.0 ≡ some host))

  All-later :
      (item : BaseRoute) (items : List BaseRoute) (l : List (String × uris.Uri))
      → All (IsTarget items) l
      → All (IsTarget (item ∷ items)) l
  All-later item items [] h = tt
  All-later item items (r ∷ l) ((there, u), h) = (
    (
      elim (Bool-cases (str_eq item.endpoint r.0)) [
        | inl same ↦ rw same refl
        | inr other ↦ rw other there
      ],
      u,
    ),
    All-later item items l h,
  )

  asked_url-parses :
      (path endpoint : String) (joined : urls.Url)
      → asked_url path endpoint ≡ some joined
      → (host : urls.Url) × (urls.parse endpoint ≡ some host)
  unfolding asked_url
  asked_url-parses path endpoint joined = with_host (urls.parse endpoint)
    where
      with_host :
          (p : Option urls.Url)
          → (elim p [ none ↦ none | some host ↦ urls.join host path ]) ≡ some joined
          → (host : urls.Url) × (p ≡ some host)
      with_host none e = cc
      with_host (some host) e = (host, refl)

  add_request-IsTarget :
      (item : BaseRoute) (items : List BaseRoute) (u : Option urls.Url)
      (rest : Outcome (List (String × uris.Uri))) (sent : List (String × uris.Uri))
      → ((joined : urls.Url)
          → u ≡ some joined
          → (host : urls.Url) × (urls.parse item.endpoint ≡ some host))
      → ((l : List (String × uris.Uri)) → rest ≡ ok l → All (IsTarget items) l)
      → add_request item.endpoint u rest ≡ ok sent
      → All (IsTarget (item ∷ items)) sent
  unfolding add_request
  add_request-IsTarget item items none rest sent parses later e =
      All-later item items sent (later sent e)
  add_request-IsTarget item items (some joined) rest sent parses later e =
      let (uri, there, e1) = bound-ok (ok_or (uris.parse (urls.text joined)) _) _ sent e in
      let (l, done, e2) = bound-ok rest _ sent e1 in
      subst (All (IsTarget (item ∷ items))) (ok-inj e2) (
        (rw (eq_refl item.endpoint) refl, parses joined refl),
        All-later item items l (later l done),
      )

  -- A round asks only targets of the route's router whose endpoints are URLs: any other target is
  -- passed over.
  requests-IsTarget :
      (path : String) (items : List BaseRoute) (sent : List (String × uris.Uri))
      → requests path items ≡ ok sent
      → All (IsTarget items) sent
  unfolding requests
  requests-IsTarget path [] sent e = subst (All (IsTarget [])) (ok-inj e) tt
  requests-IsTarget path (item ∷ items) sent e =
      add_request-IsTarget item items (asked_url path item.endpoint) (requests path items) sent
        (asked_url-parses path item.endpoint) (requests-IsTarget path items) e
