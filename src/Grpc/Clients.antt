-- ===== src/Grpc/Clients.antt =====
-- rust-proxy/src/proxy/http1/app_clients.rs and grpc_client.rs: the clients of the gRPC services
-- that the routes of a port name, and their calls. They are what `Upstream.Servers` asks for.
pub mod Found
pub mod Samples
mod Tests
use Prim.Native.Char.{code}
use silverwind.Prelude.{
  ℕ, zero, suc, ◌+◌, ◌-◌, ◌*◌, ◌/◌, ◌%◌, ◌^◌, ◌≤◌, ◌<◌, String, ◌≡◌, refl, sym, ap, ◌∙◌, ◌≢◌, ◌↔◌,
  ◌⊎◌, inl, inr, Bool, true, false, not, ◌&&◌, ◌||◌, Option, none, some, List, [], ◌∷◌, ◌++◌, map,
  arith, eq_iff, eq_refl, ltb, leb, str_eq, ◌==◌, if◌then◌else◌, Bool-cases, Option-cases, lt→ltb,
  le→ltb, le→leb, lt→leb, length, get_elem?, is_empty, any, all, select, replicate, length-append,
  get_elem?_lt, All, All-get_elem?, All-select, select-holds, ℤ, pos, negsuc, to_u32, as_i32,
  add_i32, sub_i32, lt_ℤ, le_ℤ, min_ℤ, add_i32_pos, sub_i32_pos, as_i32_pos, Outcome, ok, err,
  panic, ◌>>=◌, ok_or, Outcome-cases, Done, or_else, and_then, map_err, ok-inj, some-inj, none≢some,
  Eq, string_eq, ◌⧺◌, contains_char, strip_prefix, is_some, starts_with, split, decimal, int_text,
  join, ends_with, contains_str,
}
use silverwind.Prelude.Assoc.{lookup, insert}
use silverwind.Prelude.Loops.{for_each}
use silverwind.Errors.{from, Cause}
use silverwind.External.{Http, Codecs, Uris, RegexEngine, lower}
use silverwind.Upstream.{Servers}
use silverwind.Router.Base.{BaseRoute}
use silverwind.Router.{Router, get_all_route}
use silverwind.Route.{RouteConfig, Transcode}
use silverwind.Config.{AppConfig, ApiService, int_eq}
use silverwind.Middleware.{Cell}

-- tonic and prost_reflect, std's files, and serde_json. An error is the library's message.
pub record Tonic (codecs : Codecs) : Type 1 where
  pub Endpoint : Type 0
  pub Channel : Type 0
  pub DescriptorPool : Type 0
  pub Service : Type 0
  pub Method : Type 0
  pub MessageDescriptor : Type 0
  pub DynamicMessage : Type 0
  pub from_shared : String → Outcome Endpoint
  pub connect : Endpoint → Outcome Channel
  pub read : String → Outcome codecs.Bytes
  pub decode : codecs.Bytes → Outcome DescriptorPool
  pub get_service_by_name : DescriptorPool → String → Option Service
  pub full_name : Service → String
  pub methods : Service → List Method
  pub name : Method → String
  pub input : Method → MessageDescriptor
  pub output : Method → MessageDescriptor
  pub deserialize : MessageDescriptor → codecs.Bytes → Outcome DynamicMessage
  pub path : String → Outcome Done
  pub ready : Channel → Outcome Done
  pub unary : Channel → DynamicMessage → String → MessageDescriptor → Outcome DynamicMessage
  pub to_json : DynamicMessage → Outcome String

-- `text.to_lowercase().starts_with(prefix)`, of a prefix whose letters are the lower-case ones of
-- ASCII letters alone.
unfoldable pub starts_with_lower : String → String → Bool
starts_with_lower text String.[] = true
starts_with_lower String.[] (String.◌∷◌ d prefix) = false
starts_with_lower (String.◌∷◌ c text) (String.◌∷◌ d prefix) =
    let rest = starts_with_lower text prefix in if lower (code c) == code d then rest else false

is_grpc : BaseRoute → Bool
unfolding starts_with_lower
is_grpc route = starts_with_lower route.endpoint "grpc://"

module _ (engine : RegexEngine) where
  -- The endpoints of a route with what describes their services.
  described : Option Transcode → List BaseRoute → Outcome (List (String × String))
  described transcode [] = ok []
  described none (route ∷ routes) =
      err "Transcode config is required for gRPC routes but was not found."
  described (some transcode_config) (route ∷ routes) = ok (
      map (λ (route : BaseRoute). (route.endpoint, transcode_config.proto_descriptor_set))
        (route ∷ routes))

  -- The rest of the loop: a router without a list of routes ends it with no endpoint at all.
  extended :
      RouteConfig engine
      → Outcome (List BaseRoute)
      → (List (String × String) → Outcome (List (String × String)))
      → List (String × String)
      → Outcome (List (String × String))
  unfolding described is_grpc
  extended item (ok routes) rest grpc_list =
      described item.transcode (select is_grpc routes) >>= λ more. rest (grpc_list ++ more)
  extended item (err e) rest grpc_list = ok []
  extended item panic rest grpc_list = panic

  unfoldable pub extract_from :
      List (RouteConfig engine) → List (String × String) → Outcome (List (String × String))
  unfolding extended get_all_route
  extract_from [] grpc_list = ok grpc_list
  extract_from (item ∷ items) grpc_list =
      extended item (get_all_route item.router) (extract_from items) grpc_list

  unfoldable pub extract_grpc_configs : ApiService engine → Outcome (List (String × String))
  unfolding extract_from
  extract_grpc_configs api_service = extract_from api_service.route_configs []

-- A client of a service: `GrpcChanel`.
pub record GrpcChannel (codecs : Codecs) (tonic : Tonic codecs) : Type 0 where
  pub channel : tonic.Channel
  pub descriptor_pool : tonic.DescriptorPool

module _ (codecs : Codecs) (tonic : Tonic codecs) where
  abbrev pub GrpcClients : Type 0
  GrpcClients = List (String × GrpcChannel codecs tonic)

  read_error : String → String → String
  read_error proto_descriptor_set e =
      "Failed to read .pb file at '" ⧺ (proto_descriptor_set ⧺ ("': " ⧺ e))

  add_client : String × String → GrpcClients → Outcome GrpcClients
  unfolding insert read_error
  add_client (endpoint_item, proto_descriptor_set) clients =
      map_err (from Cause.uri) (tonic.from_shared endpoint_item) >>= λ endpoint.
      map_err (from Cause.transport) (tonic.connect endpoint) >>= λ channel.
      map_err (read_error proto_descriptor_set) (tonic.read proto_descriptor_set) >>= λ file_bytes.
      map_err (from Cause.descriptor) (tonic.decode file_bytes) >>= λ descriptor_pool. ok (
        insert endpoint_item (record { channel = channel; descriptor_pool = descriptor_pool })
          clients)

  unfoldable pub new_clients : List (String × String) → Outcome GrpcClients
  unfolding add_client
  new_clients endpoints = for_each add_client endpoints []

  unfoldable pub get_client : GrpcClients → String → Outcome (GrpcChannel codecs tonic)
  unfolding lookup
  get_client clients endpoint = ok_or (lookup endpoint clients) "Can not find chanel."

  find_method : String → List tonic.Method → Option tonic.Method
  find_method method_name [] = none
  find_method method_name (x ∷ xs) =
      let rest = find_method method_name xs in
      if str_eq (tonic.name x) method_name then some x else rest

  -- The call, and its answer as a text.
  do_request : GrpcChannel codecs tonic → String → String → codecs.Bytes → Outcome String
  unfolding find_method
  do_request client service_name method_name body =
      ok_or (tonic.get_service_by_name client.descriptor_pool service_name)
        ("Service '" ⧺ (service_name ⧺ "' not found"))
      >>= λ service_descriptor.
          ok_or (find_method method_name (tonic.methods service_descriptor))
            ("Method '" ⧺ (method_name ⧺ ("' not found in service '" ⧺ (service_name ⧺ "'"))))
          >>= λ method_descriptor.
              map_err (from Cause.json) (tonic.deserialize (tonic.input method_descriptor) body)
              >>= λ dynamic_request.
                  let path =
                    "/"
                    ⧺ (tonic.full_name service_descriptor ⧺ ("/" ⧺ tonic.name method_descriptor)) in
                  map_err (from Cause.uri) (tonic.path path) >>= λ u.
                  map_err (from Cause.transport) (tonic.ready client.channel) >>= λ u.
                  map_err (from Cause.status) (
                    tonic.unary client.channel dynamic_request path
                      (tonic.output method_descriptor))
                  >>= λ dynamic_message. map_err (from Cause.json) (tonic.to_json dynamic_message)

  -- Clients that cannot be made are done without.
  kept : Outcome GrpcClients → Outcome (Option GrpcClients)
  kept (ok clients) = ok (some clients)
  kept (err e) = ok none
  kept panic = panic

  module _ (engine : RegexEngine) (poison_error : String) (port : ℤ) where
    configs_of : Option (ApiService engine) → Outcome (List (String × String))
    unfolding extract_grpc_configs
    configs_of none = ok []
    configs_of (some api_service) = extract_grpc_configs engine api_service

    grpc_configs : Cell (AppConfig engine) → Outcome (List (String × String))
    unfolding configs_of lookup
    grpc_configs shared_data =
        if shared_data.poisoned
        then err (from Cause.config_lock poison_error)
        else configs_of (lookup port shared_data.value.api_service_config)

    -- `AppClients::new`: the clients that a listener keeps as long as it runs.
    unfoldable pub app_clients : Cell (AppConfig engine) → Outcome (Option GrpcClients)
    unfolding grpc_configs new_clients kept
    app_clients shared_data = grpc_configs shared_data >>= λ grpc_configs.
        if is_empty grpc_configs then ok none else kept (new_clients grpc_configs)

-- The servers of a port: the clients of its gRPC services beside the other servers.
unfoldable pub with_clients :
    (http : Http) (codecs : Codecs) (uris : Uris) (tonic : Tonic codecs)
    → Servers http codecs uris
    → Option (GrpcClients codecs tonic)
    → Servers http codecs uris
unfolding get_client do_request
with_clients http codecs uris tonic servers clients = record servers {
  GrpcClient = GrpcChannel codecs tonic;
  grpc = elim clients [ none ↦ none | some grpc ↦ some (get_client codecs tonic grpc) ];
  do_request = do_request codecs tonic;
}
