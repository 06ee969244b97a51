-- ===== src/Config.antt =====
-- rust-proxy/src/vojo/app_config.rs: the configuration, as a map from ports to services.
pub mod Saving
mod Tests
use silverwind.Prelude.{
  ℕ, String, ◌≡◌, ◌↔◌, Bool, true, false, Option, List, ℤ, pos, negsuc, ◌==◌, ap, Eq, arith,
}
use silverwind.External.{RegexEngine}
use silverwind.Route.{RouteConfig}

abbrev pub same_int : ℤ → ℤ → Bool
same_int (pos a) (pos b) = a == b
same_int (negsuc a) (negsuc b) = a == b
same_int _ _ = false

magnitude : ℤ → ℕ
magnitude (pos n) = n
magnitude (negsuc n) = n

same_nat : (a b : ℕ) → a ≡ b → (a == b) ≡ true
same_nat a b e = ground arith

pub same_int_iff : (a b : ℤ) → (same_int a b ≡ true) ↔ (a ≡ b)
unfolding magnitude
same_int_iff (pos a) (pos b) = (λ h. ap pos (ground arith), λ e. same_nat a b (ap magnitude e))
same_int_iff (negsuc a) (negsuc b) =
    (λ h. ap negsuc (ground arith), λ e. same_nat a b (ap magnitude e))
same_int_iff (pos a) (negsuc b) = (λ h. cc, λ e. cc)
same_int_iff (negsuc a) (pos b) = (λ h. cc, λ e. cc)

instance abbrev pub int_eq : Eq ℤ
int_eq = record { beq = same_int; beq_iff = same_int_iff }

pub data ServiceType : Type 0 where
  http https tcp http2 http2_tls : ServiceType

-- The `sender`, which only ends a listener, is left out.
pub record ApiService (engine : RegexEngine) : Type 0 where
  pub listen_port : ℤ
  pub server_type : ServiceType
  pub domain_config : List String
  pub route_configs : List (RouteConfig engine)

-- The settings of the certificates, of the logs and of the admin port are left out.
pub record AppConfig (engine : RegexEngine) : Type 0 where
  pub upstream_timeout_secs : Option ℤ
  pub api_service_config : List (ℤ × ApiService engine)
