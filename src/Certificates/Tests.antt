-- ===== src/Certificates/Tests.antt =====
-- A certificate that lasts, and a resolver with one key.
use silverwind.Prelude.{
  String, ◌≡◌, refl, ◌≢◌, ◌↔◌, true, false, none, some, [], ◌∷◌, ok, string_eq,
}
use silverwind.Prelude.Assoc.{lookup, insert}
use silverwind.Certificates.{
  get_domain_path, expires, needs_renewal, load_tls_config, CertifiedKey, SniCertResolver, read_key,
  load_cert, resolve,
}
use silverwind.Certificates.Samples.{plain_tls}
use silverwind.Certificates.Renewal.{Lasts, needs_renewal-Lasts}

runs :
    (needs_renewal plain_tls 86400000000000 "example.com" ≡ false)
    × (needs_renewal plain_tls 86400000000001 "example.com" ≡ true)
    × (load_tls_config plain_tls 0 "a" ≡ ok ("/root/.spire/domains/a/cert.pem" ∷ []))
    × (load_tls_config plain_tls 2678400000000001 "a" ≡ ok ("a" ∷ []))
unfolding needs_renewal expires load_tls_config get_domain_path
runs = (refl, refl, refl, refl)

abbrev name : String
name = "example.com"

needs_renewal-Lasts_example :
    (needs_renewal plain_tls 0 name ≡ false) ↔ ((name ≢ "") × Lasts plain_tls 0 name)
needs_renewal-Lasts_example = needs_renewal-Lasts plain_tls 0 name

abbrev no_keys : SniCertResolver plain_tls
no_keys = record { certs = []; default_cert = none }

abbrev a_key : CertifiedKey plain_tls
a_key = record { certs = "a.pem" ∷ []; key = "a.key" }

abbrev one_key : SniCertResolver plain_tls
one_key = record { certs = ("a", a_key) ∷ []; default_cert = some a_key }

-- Another name gets the default.
loads :
    (load_cert plain_tls "a" "a.pem" "a.key" true no_keys ≡ ok one_key)
    × (resolve plain_tls one_key (some "b") ≡ some a_key)
unfolding load_cert read_key insert resolve lookup
loads = (refl, refl)
