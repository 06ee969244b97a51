-- ===== src/Startup/Tests.antt =====
-- A service of TLS with two domains, and one with none.
use silverwind.Prelude.{String, ◌≡◌, refl, false, none, List, [], ◌∷◌, pos, ok, err, string_eq}
use silverwind.Prelude.Assoc.{lookup}
use silverwind.External.Samples.{plain_codecs, prefix_regex}
use silverwind.Middleware.{Cell}
use silverwind.Config.{AppConfig, ServiceType, int_eq}
use silverwind.Grpc.Clients.{app_clients, extract_grpc_configs, extract_from}
use silverwind.Grpc.Clients.Samples.{plain_tonic}
use silverwind.Certificates.{load_tls_config, get_domain_path}
use silverwind.Certificates.Samples.{plain_tls}
use silverwind.Startup.{Listener, start_proxy}
use silverwind.Startup.Listeners.{IsOfFirst, start_proxy-IsOfFirst}

abbrev config : List String → Cell (AppConfig prefix_regex)
config names = record {
  value = record {
    upstream_timeout_secs = none;
    api_service_config =
        (
          pos 443,
          record {
            listen_port = pos 443;
            server_type = ServiceType.https;
            domain_config = names;
            route_configs = [];
          },
        )
        ∷ [];
  };
  poisoned = false;
}

abbrev listener : Listener plain_codecs plain_tonic plain_tls
listener = Listener.https_server none ("/root/.spire/domains/a/cert.pem" ∷ [])

starts :
    (start_proxy plain_codecs plain_tonic prefix_regex plain_tls "poisoned" 0
        (config ("a" ∷ "b" ∷ []))
        (pos 443)
        ServiceType.https
      ≡ ok listener)
    × (start_proxy plain_codecs plain_tonic prefix_regex plain_tls "poisoned" 0
          (config [])
          (pos 443)
          ServiceType.https
        ≡ err "Cannot create certificate because the domains list is empty.")
unfolding start_proxy app_clients extract_grpc_configs extract_from lookup load_tls_config
    get_domain_path
starts = (refl, refl)

start_proxy-IsOfFirst_example :
    IsOfFirst plain_codecs plain_tonic prefix_regex plain_tls "poisoned" 0
      (config ("a" ∷ "b" ∷ []))
      (pos 443)
      ("/root/.spire/domains/a/cert.pem" ∷ [])
start_proxy-IsOfFirst_example =
    start_proxy-IsOfFirst plain_codecs plain_tonic prefix_regex plain_tls "poisoned" 0
      (config ("a" ∷ "b" ∷ [])) (pos 443) ServiceType.https listener
      ("/root/.spire/domains/a/cert.pem" ∷ []) starts.0 refl
