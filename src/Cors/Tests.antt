-- ===== src/Cors/Tests.antt =====
-- Preflight requests to a service that allows every origin.
use silverwind.Prelude.{
  ◌≡◌, refl, false, none, some, [], ◌∷◌, pos, ok, string_eq, strip_prefix, starts_with,
}
use silverwind.External.Samples.{plain_http, plain_codecs, prefix_regex}
use silverwind.Cors.{
  CorsConfig, every_origin, origins, get, put, handle_preflight, validate_origin, some_match,
}
use silverwind.Cors.Answers.{handle_preflight-status, HasStatus}

abbrev open_config : CorsConfig
open_config = record {
  allowed_origins = every_origin;
  allowed_methods = get ∷ put ∷ [];
  allowed_headers = none;
  allow_credentials = none;
  max_age = some (pos 600);
  options_passthrough = none;
}

abbrev closed_config : CorsConfig
closed_config = record open_config { allowed_origins = origins ("https://a.example" ∷ []) }

refuses_empty : validate_origin prefix_regex closed_config "" ≡ ok false
unfolding validate_origin some_match strip_prefix starts_with
refuses_empty = refl

refused_ones_pass :
    HasStatus plain_http plain_codecs prefix_regex ""
      (handle_preflight plain_http plain_codecs prefix_regex "" closed_config "https://b.example")
      204
refused_ones_pass =
    (handle_preflight-status plain_http plain_codecs prefix_regex "" closed_config
        "https://b.example").1
      refuses_empty
