-- ===== src/Startup.antt =====
-- rust-proxy/src/configuration_service/app_config_service.rs: which listener a service starts, with
-- the certificate that the listeners of TLS load first in proxy/http1/http_proxy.rs and
-- proxy/http2/grpc_proxy.rs. Sockets and tasks are left out.
mod Listeners
mod Tests
use silverwind.Prelude.{
  ℕ, zero, suc, ◌+◌, ◌-◌, ◌*◌, ◌/◌, ◌%◌, ◌^◌, ◌≤◌, ◌<◌, String, ◌≡◌, refl, sym, ap, ◌∙◌, ◌≢◌, ◌↔◌,
  ◌⊎◌, inl, inr, Bool, true, false, not, ◌&&◌, ◌||◌, Option, none, some, List, [], ◌∷◌, ◌++◌, map,
  arith, eq_iff, eq_refl, ltb, leb, str_eq, ◌==◌, if◌then◌else◌, Bool-cases, Option-cases, lt→ltb,
  le→ltb, le→leb, lt→leb, length, get_elem?, is_empty, any, all, select, replicate, length-append,
  get_elem?_lt, All, All-get_elem?, All-select, select-holds, ℤ, pos, negsuc, to_u32, as_i32,
  add_i32, sub_i32, lt_ℤ, le_ℤ, min_ℤ, add_i32_pos, sub_i32_pos, as_i32_pos, Outcome, ok, err,
  panic, ◌>>=◌, ok_or, Outcome-cases, Done, or_else, and_then, map_err, ok-inj, some-inj, none≢some,
  Eq, string_eq, ◌⧺◌, contains_char, strip_prefix, is_some, starts_with, split, decimal, int_text,
  join, ends_with, contains_str,
}
use silverwind.Prelude.Assoc.{lookup}
use silverwind.Errors.{from, Cause}
use silverwind.External.{Codecs, RegexEngine}
use silverwind.Middleware.{Cell}
use silverwind.Config.{AppConfig, ApiService, ServiceType, int_eq}
use silverwind.Grpc.Clients.{Tonic, GrpcClients, app_clients}
use silverwind.Certificates.{Tls, load_tls_config}

-- A listener that starts: those of HTTP have the gRPC clients of their port, and those of TLS have
-- their configuration.
pub data Listener (codecs : Codecs) (tonic : Tonic codecs) (tls : Tls) : Type 0 where
  tcp_proxy grpc_proxy : Listener codecs tonic tls
  http_server : Option (GrpcClients codecs tonic) → Listener codecs tonic tls
  https_server : Option (GrpcClients codecs tonic) → tls.ServerConfig → Listener codecs tonic tls
  grpc_tls_proxy : tls.ServerConfig → Listener codecs tonic tls

module _ (codecs : Codecs) (tonic : Tonic codecs) (engine : RegexEngine) (tls : Tls)
    (poison_error : String) (now : ℕ) where
  domains_of : ℤ → Option (ApiService engine) → Outcome (List String)
  unfolding int_text
  domains_of port none =
      err ("Missing 'domains' configuration for HTTPS service on port " ⧺ int_text port)
  domains_of port (some service) = ok service.domain_config

  domains : Cell (AppConfig engine) → ℤ → Outcome (List String)
  unfolding domains_of lookup
  domains shared_config port =
      if shared_config.poisoned
      then err (from Cause.config_lock poison_error)
      else domains_of port (lookup port shared_config.value.api_service_config)

  tls_config : List String → Outcome tls.ServerConfig
  unfolding load_tls_config
  tls_config [] = err "Cannot create certificate because the domains list is empty."
  tls_config (domain ∷ domains) = load_tls_config tls now domain

  https_started : Cell (AppConfig engine) → ℤ → List String → Outcome (Listener codecs tonic tls)
  unfolding app_clients tls_config
  https_started shared_config port names =
      app_clients codecs tonic engine poison_error port shared_config >>= λ clients.
      tls_config names >>= λ config. ok (Listener.https_server clients config)

  unfoldable pub start_proxy :
      Cell (AppConfig engine) → ℤ → ServiceType → Outcome (Listener codecs tonic tls)
  unfolding domains tls_config https_started app_clients
  start_proxy shared_config port ServiceType.http =
      app_clients codecs tonic engine poison_error port shared_config >>= λ clients.
      ok (Listener.http_server clients)
  start_proxy shared_config port ServiceType.https =
      domains shared_config port >>= https_started shared_config port
  start_proxy shared_config port ServiceType.tcp = ok Listener.tcp_proxy
  start_proxy shared_config port ServiceType.http2 = ok Listener.grpc_proxy
  start_proxy shared_config port ServiceType.http2_tls = domains shared_config port >>= λ names.
      tls_config names >>= λ config. ok (Listener.grpc_tls_proxy config)
