-- ===== src/Grpc/Clients/Found.antt =====
-- The endpoints that have a client.
use silverwind.Prelude.{
  ℕ, zero, suc, String, ◌≡◌, refl, sym, ap, ◌∙◌, ◌≢◌, inl, inr, Bool, ◌||◌, Option, none, some,
  List, [], ◌∷◌, ◌++◌, str_eq, Bool-cases, get_elem?, any, ℤ, Outcome, ok, err, panic, ok_or,
  map_err, ok-inj, some-inj, string_eq, is_some,
}
use silverwind.Prelude.Assoc.{lookup}
use silverwind.Prelude.Maps.{contains, contains-insert, or_false, or_assoc}
use silverwind.Prelude.Loops.{for_each, bound-ok}
use silverwind.Errors.{from, Cause}
use silverwind.External.{Codecs, RegexEngine}
use silverwind.Router.Base.{BaseRoute, StaticFileRoute}
use silverwind.Router.{Router, get_all_route}
use silverwind.Route.{RouteConfig}
use silverwind.Config.{AppConfig, ApiService, int_eq}
use silverwind.Middleware.{Cell}
use silverwind.Grpc.Clients.{
  Tonic, GrpcClients, GrpcChannel, extended, extract_from, extract_grpc_configs, read_error,
  add_client, new_clients, get_client, configs_of, grpc_configs, app_clients,
}

module _ (engine : RegexEngine) where
  extended-static_file :
      (item : RouteConfig engine) (s : StaticFileRoute) (router : Router)
      (rest : List (String × String) → Outcome (List (String × String)))
      (l l' : List (String × String))
      → router ≡ Router.static_file s
      → extended engine item (get_all_route router) rest l ≡ ok l'
      → l' ≡ []
  unfolding extended get_all_route
  extended-static_file item s router rest l l' e h = sym (ok-inj (rw e at h))

  extended-rest :
      (item : RouteConfig engine) (routes : Outcome (List BaseRoute))
      (rest : List (String × String) → Outcome (List (String × String)))
      (l l' : List (String × String))
      → ((m : List (String × String)) → rest m ≡ ok l' → l' ≡ [])
      → extended engine item routes rest l ≡ ok l'
      → l' ≡ []
  unfolding extended
  extended-rest item (ok routes) rest l l' done e =
      let (more, there, later) = bound-ok _ (λ more. rest (l ++ more)) l' e in
      done (l ++ more) later
  extended-rest item (err m) rest l l' done e = sym (ok-inj e)
  extended-rest item panic rest l l' done e = cc

  extract_from-static_file :
      (items : List (RouteConfig engine)) (i : ℕ) (item : RouteConfig engine) (s : StaticFileRoute)
      (l l' : List (String × String))
      → get_elem? items i ≡ some item
      → item.router ≡ Router.static_file s
      → extract_from engine items l ≡ ok l'
      → l' ≡ []
  unfolding extract_from
  extract_from-static_file [] i item s l l' there file e = cc
  extract_from-static_file (x ∷ xs) zero item s l l' there file e =
      extended-static_file x s x.router (extract_from engine xs) l l'
        (ap (λ (r : RouteConfig engine). r.router) (some-inj there) ∙ file) e
  extract_from-static_file (x ∷ xs) (suc i) item s l l' there file e =
      extended-rest x (get_all_route x.router) (extract_from engine xs) l l'
        (λ m. extract_from-static_file xs i item s m l' there file) e

module _ (codecs : Codecs) (tonic : Tonic codecs) (engine : RegexEngine) (poison_error : String)
    (port : ℤ) where
  configs_of-static_file :
      (found : Option (ApiService engine)) (api_service : ApiService engine) (i : ℕ)
      (item : RouteConfig engine) (s : StaticFileRoute) (configs : List (String × String))
      → found ≡ some api_service
      → get_elem? api_service.route_configs i ≡ some item
      → item.router ≡ Router.static_file s
      → configs_of codecs tonic engine poison_error port found ≡ ok configs
      → configs ≡ []
  unfolding configs_of extract_grpc_configs
  configs_of-static_file none api_service i item s configs f there file e = cc
  configs_of-static_file (some service) api_service i item s configs f there file e =
      extract_from-static_file engine service.route_configs i item s [] configs
        (ap (λ (a : ApiService engine). get_elem? a.route_configs i) (some-inj f) ∙ there) file e

  configs-static_file :
      (shared_data : Cell (AppConfig engine)) (api_service : ApiService engine) (i : ℕ)
      (item : RouteConfig engine) (s : StaticFileRoute) (configs : List (String × String))
      → lookup port shared_data.value.api_service_config ≡ some api_service
      → get_elem? api_service.route_configs i ≡ some item
      → item.router ≡ Router.static_file s
      → grpc_configs codecs tonic engine poison_error port shared_data ≡ ok configs
      → configs ≡ []
  unfolding grpc_configs
  configs-static_file shared_data api_service i item s configs found there file e =
      elim (Bool-cases shared_data.poisoned) [
        | inl yes_ ↦ absurd (never (rw yes_ at e))
        | inr no_ ↦
            configs_of-static_file _ api_service i item s configs found there file (rw no_ at e)
      ]
    where
      never : {A : Type 0} {m : String} {a : A} → err m ≡ ok a → ⊥
      never e = cc

  -- If one of the routes of a port serves files, its listener has no gRPC clients, whatever gRPC
  -- services the other routes name.
  pub app_clients-static_file :
      (shared_data : Cell (AppConfig engine)) (api_service : ApiService engine) (i : ℕ)
      (item : RouteConfig engine) (s : StaticFileRoute) (clients : GrpcClients codecs tonic)
      → lookup port shared_data.value.api_service_config ≡ some api_service
      → get_elem? api_service.route_configs i ≡ some item
      → item.router ≡ Router.static_file s
      → app_clients codecs tonic engine poison_error port shared_data ≢ ok (some clients)
  unfolding app_clients
  app_clients-static_file shared_data api_service i item s clients found there file e =
      let (configs, got, made) =
        bound-ok (grpc_configs codecs tonic engine poison_error port shared_data) _ _ e in
      let nothing =
        configs-static_file shared_data api_service i item s configs found there file got in
      absurd (without (rw nothing at made))
    where
      without : ok none ≡ ok (some clients) → ⊥
      without e = cc

module _ (codecs : Codecs) (tonic : Tonic codecs) where
  -- The client, if there is one.
  abbrev pub client_at : Outcome (GrpcChannel codecs tonic) → Option (GrpcChannel codecs tonic)
  client_at (ok c) = some c
  client_at (err e) = none
  client_at panic = none

  abbrev pub names : String → String × String → Bool
  names endpoint p = str_eq p.0 endpoint

  add_client-contains :
      (endpoint : String) (p : String × String) (m m' : GrpcClients codecs tonic)
      → add_client codecs tonic p m ≡ ok m'
      → contains endpoint m' ≡ contains endpoint m || names endpoint p
  unfolding add_client
  add_client-contains endpoint (endpoint_item, set) m m' e =
      let (a, ha, e1) =
        bound-ok (map_err (from Cause.uri) (tonic.from_shared endpoint_item)) _ m' e in
      let (c, hc, e2) = bound-ok (map_err (from Cause.transport) (tonic.connect a)) _ m' e1 in
      let (b, hb, e3) = bound-ok (map_err (read_error codecs tonic set) (tonic.read set)) _ m' e2 in
      let (d, hd, e4) = bound-ok (map_err (from Cause.descriptor) (tonic.decode b)) _ m' e3 in
      ap (contains endpoint) (sym (ok-inj e4)) ∙ contains-insert endpoint_item endpoint _ m

  new_clients-contains :
      (endpoint : String) (endpoints : List (String × String)) (m m' : GrpcClients codecs tonic)
      → for_each (add_client codecs tonic) endpoints m ≡ ok m'
      → contains endpoint m' ≡ contains endpoint m || any (names endpoint) endpoints
  new_clients-contains endpoint [] m m' e =
      ap (contains endpoint) (sym (ok-inj e)) ∙ sym (or_false (contains endpoint m))
  new_clients-contains endpoint (p ∷ endpoints) m m' e =
      let (t, here, later) = bound-ok (add_client codecs tonic p m) _ m' e in
      new_clients-contains endpoint endpoints t m' later
      ∙ (ap (λ b. b || any (names endpoint) endpoints) (add_client-contains endpoint p m t here)
          ∙ or_assoc (contains endpoint m) (names endpoint p) (any (names endpoint) endpoints))

  client_at-ok_or :
      (o : Option (GrpcChannel codecs tonic)) (m : String)
      → is_some (client_at (ok_or o m)) ≡ is_some o
  client_at-ok_or none m = refl
  client_at-ok_or (some c) m = refl

  -- If the clients of a list of endpoints can be made, then an endpoint has a client exactly if it is
  -- in the list.
  get_client-new_clients :
      (endpoints : List (String × String)) (endpoint : String) (clients : GrpcClients codecs tonic)
      → new_clients codecs tonic endpoints ≡ ok clients
      → is_some (client_at (get_client codecs tonic clients endpoint))
        ≡ any (names endpoint) endpoints
  unfolding new_clients get_client contains lookup
  get_client-new_clients endpoints endpoint clients e =
      client_at-ok_or (lookup endpoint clients) "Can not find chanel."
      ∙ new_clients-contains endpoint endpoints [] clients e
