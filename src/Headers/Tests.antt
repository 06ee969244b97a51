-- ===== src/Headers/Tests.antt =====
-- Requests whose headers are changed.
use silverwind.Prelude.{
  String, ◌≡◌, refl, false, Option, none, some, [], ◌∷◌, if◌then◌else◌, ok, string_eq,
}
use silverwind.External.{same_name}
use silverwind.External.Samples.{plain_http}
use silverwind.Headers.{RequestHeaders, handle_before_request, handle_request}
use silverwind.Headers.Changed.{final, handle_request-final}
use silverwind.Headers.Forwarded.{handle_before_request-forwards}

abbrev proxied : String → Option String
proxied k = if same_name "x-forwarded-for" k then some "10.0.0.1" else none

handle_before_request-forwards_example :
    let after = handle_before_request plain_http "10.0.0.2" proxied in
    (after.1 ≡ ok tt)
    × (plain_http.get after.0 "X-Real-IP" ≡ some "10.0.0.2")
    × (plain_http.get after.0 "X-Forwarded-For" ≡ some "10.0.0.1, 10.0.0.2")
    × ((k : String)
        → same_name "X-Real-IP" k ≡ false
        → same_name "X-Forwarded-For" k ≡ false
        → plain_http.get after.0 k ≡ plain_http.get proxied k)
unfolding same_name
handle_before_request-forwards_example =
    handle_before_request-forwards plain_http "10.0.0.2" "10.0.0.2" proxied "10.0.0.1, 10.0.0.2"
      "10.0.0.1, 10.0.0.2" refl ("10.0.0.1", refl, refl) refl

abbrev config : RequestHeaders
config = record { add = ("X-Env", "prod") ∷ []; remove = "X-FORWARDED-FOR" ∷ [] }

removed_and_added :
    (plain_http.get (handle_request plain_http config proxied).0 "x-forwarded-for" ≡ none)
    × (plain_http.get (handle_request plain_http config proxied).0 "x-env" ≡ some "prod")
unfolding handle_request same_name
removed_and_added = (refl, refl)

handle_request-final_example :
    (plain_http.get (handle_request plain_http config proxied).0 "x-env"
      ≡ final plain_http config proxied "x-env")
    × ((handle_request plain_http config proxied).1 ≡ ok tt)
handle_request-final_example =
    handle_request-final plain_http config proxied "x-env" ((refl, ("prod", refl)), tt)
