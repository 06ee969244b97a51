-- ===== src/Authentication/Tests.antt =====
-- Requests that pass and that do not.
use silverwind.Prelude.{
  String, ◌≡◌, refl, false, Option, none, some, str_eq, if◌then◌else◌, ok, string_eq,
}
use silverwind.External.{same_name}
use silverwind.External.Samples.{plain_http}
use silverwind.Denial.{allowed}
use silverwind.Authentication.{
  Authentication, api_key, basic, Crypto, basic_check, check_authentication, check_request,
}
use silverwind.Authentication.Schemes.{check_request-Presents}

abbrev plain_crypto : Crypto
plain_crypto = record { encode = λ s. s; decodes = λ auth token. str_eq token auth.secret }

abbrev with_key : String → Option String
with_key k = if same_name "X-Api-Key" k then some "secret" else none

abbrev key : Authentication
key = api_key (record { key = "x-api-key"; value = "secret" })

not_basic :
    check_authentication plain_http plain_crypto (basic (record { credentials = "a:b" })) with_key
    ≡ ok false
unfolding check_authentication basic_check same_name
not_basic = refl

check_request-Presents_example :
    check_request plain_http plain_crypto (some with_key) key ≡ ok allowed
unfolding same_name
check_request-Presents_example =
    (check_request-Presents plain_http plain_crypto with_key key).1 ("secret", refl, refl)
