-- ===== src/Startup/Listeners.antt =====
-- Which certificate a listener of TLS has.
use silverwind.Prelude.{
  ℕ, String, ◌≡◌, refl, ap, ◌∙◌, inl, inr, Option, none, some, List, [], ◌∷◌, Bool-cases, ℤ, ok,
  err, ok-inj, some-inj, none≢some, string_eq,
}
use silverwind.Prelude.Assoc.{lookup}
use silverwind.Prelude.Loops.{bound-ok}
use silverwind.External.{Codecs, RegexEngine}
use silverwind.Middleware.{Cell}
use silverwind.Config.{AppConfig, ApiService, ServiceType, int_eq}
use silverwind.Grpc.Clients.{Tonic, app_clients}
use silverwind.Certificates.{Tls, load_tls_config}
use silverwind.Startup.{Listener, domains_of, domains, tls_config, https_started, start_proxy}

module _ (codecs : Codecs) (tonic : Tonic codecs) (engine : RegexEngine) (tls : Tls)
    (poison_error : String) (now : ℕ) where
  -- The configuration of a listener, if it is one of TLS.
  abbrev pub config_of : Listener codecs tonic tls → Option tls.ServerConfig
  config_of (Listener.https_server clients config) = some config
  config_of (Listener.grpc_tls_proxy config) = some config
  config_of _ = none

  -- The configuration is that of the first domain of the port's service.
  abbrev pub IsOfFirst : Cell (AppConfig engine) → ℤ → tls.ServerConfig → Type 0
  IsOfFirst shared_config port config =
      (service : ApiService engine) × (domain : String) × (others : List String) × (lookup port
          shared_config.value.api_service_config
        ≡ some service)
      × (service.domain_config ≡ domain ∷ others)
      × (load_tls_config tls now domain ≡ ok config)

  domains-found :
      (port : ℤ) (o : Option (ApiService engine)) (names : List String)
      → domains_of codecs tonic engine tls poison_error now port o ≡ ok names
      → (service : ApiService engine) × (o ≡ some service) × (service.domain_config ≡ names)
  unfolding domains_of
  domains-found port none names e = cc
  domains-found port (some service) names e = (service, refl, ok-inj e)

  domains-service :
      (shared_config : Cell (AppConfig engine)) (port : ℤ) (names : List String)
      → domains codecs tonic engine tls poison_error now shared_config port ≡ ok names
      → (service : ApiService engine) × (lookup port shared_config.value.api_service_config
          ≡ some service)
        × (service.domain_config ≡ names)
  unfolding domains
  domains-service shared_config port names e = elim (Bool-cases shared_config.poisoned) [
    | inl yes_ ↦ absurd (never (rw yes_ at e))
    | inr no_ ↦ domains-found port _ names (rw no_ at e)
  ]
    where
      never : {A : Type 0} {m : String} {a : A} → err m ≡ ok a → ⊥
      never e = cc

  tls_config-first :
      (names : List String) (config : tls.ServerConfig)
      → tls_config codecs tonic engine tls poison_error now names ≡ ok config
      → (domain : String) × (others : List String) × (names ≡ domain ∷ others)
        × (load_tls_config tls now domain ≡ ok config)
  unfolding tls_config
  tls_config-first [] config e = cc
  tls_config-first (domain ∷ others) config e = (domain, others, refl, e)

  loaded-first :
      (shared_config : Cell (AppConfig engine)) (port : ℤ) (names : List String)
      (config : tls.ServerConfig)
      → domains codecs tonic engine tls poison_error now shared_config port ≡ ok names
      → tls_config codecs tonic engine tls poison_error now names ≡ ok config
      → IsOfFirst shared_config port config
  loaded-first shared_config port names config got later =
      let (service, there, same) = domains-service shared_config port names got in
      let (domain, others, first, loaded) = tls_config-first names config later in
      (service, domain, others, there, same ∙ first, loaded)

  -- A listener of TLS that starts has the certificate of the first domain of its port's service,
  -- whatever other domains the service has; so a service of TLS without a domain does not start.
  pub start_proxy-IsOfFirst :
      (shared_config : Cell (AppConfig engine)) (port : ℤ) (server_type : ServiceType)
      (listener : Listener codecs tonic tls) (config : tls.ServerConfig)
      → start_proxy codecs tonic engine tls poison_error now shared_config port server_type
        ≡ ok listener
      → config_of listener ≡ some config
      → IsOfFirst shared_config port config
  unfolding start_proxy https_started
  start_proxy-IsOfFirst shared_config port ServiceType.http listener config e c =
      let (clients, made, e1) =
        bound-ok (app_clients codecs tonic engine poison_error port shared_config) _ listener e in
      absurd (none≢some (ap config_of (ok-inj e1) ∙ c))
  start_proxy-IsOfFirst shared_config port ServiceType.tcp listener config e c =
      absurd (none≢some (ap config_of (ok-inj e) ∙ c))
  start_proxy-IsOfFirst shared_config port ServiceType.http2 listener config e c =
      absurd (none≢some (ap config_of (ok-inj e) ∙ c))
  start_proxy-IsOfFirst shared_config port ServiceType.https listener config e c =
      let (names, got, e1) =
        bound-ok (domains codecs tonic engine tls poison_error now shared_config port) _ listener
          e in
      let (clients, made, e2) =
        bound-ok (app_clients codecs tonic engine poison_error port shared_config) _ listener e1 in
      let (loaded, there, e3) =
        bound-ok (tls_config codecs tonic engine tls poison_error now names) _ listener e2 in
      loaded-first shared_config port names config got
        (there ∙ ap ok (some-inj (ap config_of (ok-inj e3) ∙ c)))
  start_proxy-IsOfFirst shared_config port ServiceType.http2_tls listener config e c =
      let (names, got, e1) =
        bound-ok (domains codecs tonic engine tls poison_error now shared_config port) _ listener
          e in
      let (loaded, there, e2) =
        bound-ok (tls_config codecs tonic engine tls poison_error now names) _ listener e1 in
      loaded-first shared_config port names config got
        (there ∙ ap ok (some-inj (ap config_of (ok-inj e2) ∙ c)))
