-- ===== src/Certificates.antt =====
-- The certificates of listeners: control_plane/cert_loader.rs, the tests of
-- control_plane/certificate_manager.rs, vojo/sni_cert_resolver.rs and utils/fs_utils.rs in
-- rust-proxy/src. Obtaining a certificate and the watcher of its files are left out.
pub mod Samples
mod Renewal
mod Tests
use silverwind.Prelude.{
  ℕ, zero, suc, ◌+◌, ◌-◌, ◌*◌, ◌/◌, ◌%◌, ◌^◌, ◌≤◌, ◌<◌, String, ◌≡◌, refl, sym, ap, ◌∙◌, ◌≢◌, ◌↔◌,
  ◌⊎◌, inl, inr, Bool, true, false, not, ◌&&◌, ◌||◌, Option, none, some, List, [], ◌∷◌, ◌++◌, map,
  arith, eq_iff, eq_refl, ltb, leb, str_eq, ◌==◌, if◌then◌else◌, Bool-cases, Option-cases, lt→ltb,
  le→ltb, le→leb, lt→leb, length, get_elem?, is_empty, any, all, select, replicate, length-append,
  get_elem?_lt, All, All-get_elem?, All-select, select-holds, ℤ, pos, negsuc, to_u32, as_i32,
  add_i32, sub_i32, lt_ℤ, le_ℤ, min_ℤ, add_i32_pos, sub_i32_pos, as_i32_pos, Outcome, ok, err,
  panic, ◌>>=◌, ok_or, Outcome-cases, Done, or_else, and_then, map_err, ok-inj, some-inj, none≢some,
  Eq, string_eq, ◌⧺◌, contains_char, strip_prefix, is_some, starts_with, split, decimal, int_text,
  join, ends_with, contains_str,
}
use silverwind.Prelude.Assoc.{lookup, insert}
use silverwind.Errors.{from, Cause}
use silverwind.External.{RegexEngine}
use silverwind.Config.{ApiService, ServiceType}

-- rustls_pemfile's Item.
pub data Item (Certificate : Type 0) : Type 0 where
  x509_certificate : Certificate → Item Certificate
  other : Item Certificate

-- rustls, rustls_pemfile, x509_parser and rcgen, and the files. Times count nanoseconds. An error is
-- the library's message.
pub record Tls : Type 1 where
  pub Bytes : Type 0
  pub Certificate : Type 0
  pub Validity : Type 0
  pub PrivateKey : Type 0
  pub SigningKey : Type 0
  pub KeyPair : Type 0
  pub Params : Type 0
  pub ServerConfig : Type 0
  pub home_dir : Option String
  pub join : String → String → String
  pub exists : String → Bool
  pub read : String → Outcome Bytes
  pub read_one : Bytes → Outcome (Option (Item Certificate))
  pub certs : Bytes → Outcome (List Certificate)
  pub private_key : Bytes → Outcome (Option PrivateKey)
  pub parse_x509_certificate : Certificate → Outcome Validity
  pub not_after : Validity → ℕ
  pub is_valid : Validity → ℕ → Bool
  pub with_single_cert : List Certificate → PrivateKey → Outcome ServerConfig
  pub any_supported_type : PrivateKey → Option SigningKey
  pub params : String → Outcome Params
  pub unnamed : Params → Params
  pub generate : Outcome KeyPair
  pub self_signed : Params → KeyPair → Outcome Certificate
  pub serialize_der : KeyPair → PrivateKey

module _ (tls : Tls) where
  unfoldable pub get_domain_path : String → Outcome String
  get_domain_path domain_name = ok_or tls.home_dir "Failed to get user home directory" >>= λ home.
      ok (tls.join (tls.join (tls.join home ".spire") "domains") domain_name)

  -- Whether the end of the validity is less than 30 days away, or behind.
  unfoldable pub expires : ℕ → ℕ → Bool
  expires now expiration =
      if ltb expiration now then true else ltb ((expiration - now) / 86400000000000) 30

  parsed : ℕ → Outcome tls.Validity → Bool
  unfolding expires
  parsed now (ok validity) = expires now (tls.not_after validity)
  parsed now _ = true

  item_needs : ℕ → Outcome (Option (Item tls.Certificate)) → Bool
  unfolding parsed
  item_needs now (ok (some (x509_certificate cert_der))) =
      parsed now (tls.parse_x509_certificate cert_der)
  item_needs now _ = true

  file_needs : ℕ → Outcome tls.Bytes → Bool
  unfolding item_needs
  file_needs now (ok file) = item_needs now (tls.read_one file)
  file_needs now _ = true

  path_needs : ℕ → Outcome String → Bool
  unfolding file_needs
  path_needs now (ok cert_path) = file_needs now (tls.read (tls.join cert_path "cert.pem"))
  path_needs now _ = true

  unfoldable pub needs_renewal : ℕ → String → Bool
  unfolding path_needs get_domain_path
  needs_renewal now domain_name =
      if str_eq domain_name "" then true else path_needs now (get_domain_path domain_name)

  create_self_signed_cert : String → Outcome tls.ServerConfig
  create_self_signed_cert domain =
      map_err (from Cause.certificate) (tls.params domain) >>= λ params.
      map_err (from Cause.certificate) tls.generate >>= λ key_pair.
      map_err (from Cause.certificate) (tls.self_signed (tls.unnamed params) key_pair) >>= λ cert.
      map_err (λ e. "Failed to create tls config: " ⧺ e)
        (tls.with_single_cert (cert ∷ []) (tls.serialize_der key_pair))

  opening : String → String → String → String
  opening kind path e = "Failed to open " ⧺ (kind ⧺ (" file '" ⧺ (path ⧺ ("': " ⧺ e))))

  with_files : String → List tls.Certificate → Outcome tls.ServerConfig
  unfolding opening
  with_files key_path certs = map_err (opening "key" key_path) (tls.read key_path) >>= λ key_file.
      map_err (from Cause.io) (tls.private_key key_file) >>= λ key.
      ok_or key "Failed to parse private key:" >>= λ private_key.
      map_err (λ e. "Failed to create tls config: " ⧺ e) (tls.with_single_cert certs private_key)

  first_valid : ℕ → String → String → Outcome (List tls.Certificate) → Outcome tls.ServerConfig
  unfolding with_files create_self_signed_cert
  first_valid now domain key_path (ok (cert ∷ certs)) =
      map_err (λ e. "Failed to parse certificate: " ⧺ e) (tls.parse_x509_certificate cert)
      >>= λ validity.
          if tls.is_valid validity now
          then with_files key_path (cert ∷ certs)
          else create_self_signed_cert domain
  first_valid now domain key_path (ok []) = create_self_signed_cert domain
  first_valid now domain key_path (err e) = create_self_signed_cert domain
  first_valid now domain key_path panic = panic

  in_files : ℕ → String → String → String → Outcome tls.ServerConfig
  unfolding first_valid create_self_signed_cert opening
  in_files now domain cert_path key_path =
      if tls.exists cert_path && tls.exists key_path
      then (map_err (opening "cert" cert_path) (tls.read cert_path) >>= λ cert_file.
          first_valid now domain key_path (tls.certs cert_file))
      else create_self_signed_cert domain

  unfoldable pub load_tls_config : ℕ → String → Outcome tls.ServerConfig
  unfolding in_files get_domain_path
  load_tls_config now domain = get_domain_path domain >>= λ cert_dir.
      in_files now domain (tls.join cert_dir "cert.pem") (tls.join cert_dir "key.pem")

-- rustls' CertifiedKey.
pub record CertifiedKey (tls : Tls) : Type 0 where
  pub certs : List tls.Certificate
  pub key : tls.SigningKey

pub record SniCertResolver (tls : Tls) : Type 0 where
  pub certs : List (String × CertifiedKey tls)
  pub default_cert : Option (CertifiedKey tls)

module _ (tls : Tls) where
  unfoldable pub read_key : String → String → Outcome (CertifiedKey tls)
  read_key cert_path key_path = tls.read cert_path >>= λ cert_file. tls.certs cert_file >>= λ certs.
      tls.read key_path >>= λ key_file. tls.private_key key_file >>= λ found.
      ok_or found "Could not find private key in file" >>= λ key.
      ok_or (tls.any_supported_type key) "Private key type not supported by rustls"
      >>= λ signing_key. ok (record { certs = certs; key = signing_key })

  unfoldable pub load_cert :
      String → String → String → Bool → SniCertResolver tls → Outcome (SniCertResolver tls)
  unfolding read_key insert
  load_cert domain cert_path key_path is_default self = read_key cert_path key_path >>= λ key.
      ok (record {
        certs = insert domain key self.certs;
        default_cert = if is_default then some key else self.default_cert;
      })

  unfoldable pub resolve : SniCertResolver tls → Option String → Option (CertifiedKey tls)
  unfolding lookup
  resolve self none = self.default_cert
  resolve self (some sni_name) = or_else (lookup sni_name self.certs) self.default_cert

-- The domains whose certificates the renewal task looks after.
module _ (engine : RegexEngine) where
  has_certificate : ServiceType → Bool
  has_certificate ServiceType.https = true
  has_certificate ServiceType.http2_tls = true
  has_certificate _ = false

  unfoldable pub domains_to_check : List (ℤ × ApiService engine) → List String
  unfolding has_certificate
  domains_to_check [] = []
  domains_to_check ((port, service) ∷ services) =
      let rest = domains_to_check services in
      if has_certificate service.server_type then service.domain_config ++ rest else rest
