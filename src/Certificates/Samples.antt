-- ===== src/Certificates/Samples.antt =====
-- A value of the interface of Certificates, which lets tests run.
use silverwind.Prelude.{ℕ, String, true, some, List, [], ◌∷◌, leb, ok, string_eq, ◌⧺◌}
use silverwind.Certificates.{Tls}
use silverwind.Certificates.Item.{x509_certificate}

-- Every file is a certificate and a key, which lasts for 31 days.
abbrev pub plain_tls : Tls
plain_tls = record {
  Bytes = String;
  Certificate = String;
  Validity = ℕ;
  PrivateKey = String;
  SigningKey = String;
  KeyPair = String;
  Params = String;
  ServerConfig = List String;
  home_dir = some "/root";
  join = λ a b. a ⧺ ("/" ⧺ b);
  exists = λ p. true;
  read = λ p. ok p;
  read_one = λ b. ok (some (x509_certificate b));
  certs = λ b. ok (b ∷ []);
  private_key = λ b. ok (some b);
  parse_x509_certificate = λ c. ok 2678400000000000;
  not_after = λ v. v;
  is_valid = λ v now. leb now v;
  with_single_cert = λ certs key. ok certs;
  any_supported_type = λ k. some k;
  params = λ d. ok d;
  unnamed = λ p. p;
  generate = ok "pair";
  self_signed = λ p k. ok p;
  serialize_der = λ k. k;
}
