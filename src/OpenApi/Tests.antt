-- ===== src/OpenApi/Tests.antt =====
-- Descriptions of an API, converted.
use silverwind.Prelude.{String, ◌≡◌, refl, none, some, List, [], ◌∷◌, All, Outcome, ok, string_eq}
use silverwind.External.Samples.{prefix_regex, plain_urls}
use silverwind.ControlPlane.Routes.{all_routes}
use silverwind.Config.{AppConfig}
use silverwind.OpenApi.{Spec, convert}
use silverwind.OpenApi.Routes.{ForwardsTo, convert-forwards}

abbrev the_paths : List (String × List String)
the_paths = ("/pets", "GET" ∷ "POST" ∷ []) ∷ ("/pets/{id}", "GET" ∷ []) ∷ []

abbrev two_servers : Spec
two_servers = record { servers = "http://one" ∷ "http://two" ∷ []; paths = some the_paths }

abbrev config_of : Outcome (AppConfig prefix_regex) → AppConfig prefix_regex
config_of (ok config) = config
config_of _ = record { upstream_timeout_secs = none; api_service_config = [] }

converts :
    convert prefix_regex plain_urls two_servers
    ≡ ok (config_of (convert prefix_regex plain_urls two_servers))
unfolding convert
converts = refl

convert-forwards_example : All (ForwardsTo prefix_regex plain_urls "http://one") (
    all_routes prefix_regex
      (config_of (convert prefix_regex plain_urls two_servers)).api_service_config)
convert-forwards_example =
    convert-forwards prefix_regex plain_urls two_servers
      (config_of (convert prefix_regex plain_urls two_servers)) converts
