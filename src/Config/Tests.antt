-- ===== src/Config/Tests.antt =====
-- Services on two ports.
use silverwind.Prelude.{
  String, ◌≡◌, refl, List, [], ◌∷◌, if◌then◌else◌, ℤ, pos, Outcome, ok, err, string_eq,
}
use silverwind.External.Samples.{prefix_regex}
use silverwind.Prelude.Assoc.{lookup}
use silverwind.Config.{ApiService, ServiceType, int_eq}
use silverwind.Config.Saving.{
  serialize_api_service_config, deserialize_service_config, AreKeyed,
  deserialize_service_config-serialize_api_service_config, each,
}

abbrev service : ℤ → List String → ApiService prefix_regex
service port domains = record {
  listen_port = port;
  server_type = ServiceType.http;
  domain_config = domains;
  route_configs = [];
}

abbrev both : List (ℤ × ApiService prefix_regex)
both = (pos 80, service (pos 80) []) ∷ (pos 81, service (pos 81) []) ∷ []

-- A form that is the service itself, and a reader that knows no port 81.
abbrev written : ApiService prefix_regex → Outcome (ApiService prefix_regex)
written s = ok s

abbrev read : ApiService prefix_regex → Outcome (ApiService prefix_regex)
read s = if int_eq.beq s.listen_port (pos 81) then err "port 81" else ok s

abbrev others : List (ℤ × ApiService prefix_regex)
others = (pos 80, service (pos 80) []) ∷ (pos 82, service (pos 82) []) ∷ []

both-AreKeyed : AreKeyed prefix_regex both
unfolding AreKeyed lookup
both-AreKeyed = (refl, refl, (refl, refl, tt))

two_forms :
    serialize_api_service_config prefix_regex written read both
    ≡ ok (service (pos 80) [] ∷ service (pos 81) [] ∷ [])
unfolding serialize_api_service_config each
two_forms = refl

unreadable :
    deserialize_service_config prefix_regex written read
      (service (pos 80) [] ∷ service (pos 81) [] ∷ [])
    ≡ err "port 81"
unreadable =
    (deserialize_service_config-serialize_api_service_config prefix_regex written read both
        both-AreKeyed).1
      ((pos 80, service (pos 80) []) ∷ []) [] (pos 81) (service (pos 81) []) (service (pos 81) [])
      "port 81" (service (pos 80) [] ∷ service (pos 81) [] ∷ []) refl ((_, refl, refl), tt) refl
      refl two_forms
