-- ===== src/Certificates/Renewal.antt =====
-- When a certificate is renewed, and which certificate a client gets.
use silverwind.Prelude.{
  ℕ, ◌+◌, ◌≤◌, String, ◌≡◌, refl, sym, ap, ◌∙◌, ◌≢◌, ◌↔◌, inl, inr, Bool, true, false, Option, none,
  some, List, arith, eq_iff, str_eq, if◌then◌else◌, Bool-cases, Outcome, ok, err, panic, or_else,
  ok-inj, string_eq,
}
use silverwind.Prelude.Assoc.{lookup, insert, lookup-insert_self}
use silverwind.Prelude.Maps.{lookup-insert_other}
use silverwind.Prelude.Loops.{bound-ok}
use silverwind.Certificates.{
  Item, Tls, get_domain_path, expires, parsed, item_needs, file_needs, path_needs, needs_renewal,
  CertifiedKey, SniCertResolver, read_key, load_cert, resolve,
}
use silverwind.Certificates.Item.{x509_certificate, other}

module _ (tls : Tls) where
  -- The domain's file begins with a certificate that lasts for at least 30 days from now.
  abbrev pub Lasts : ℕ → String → Type 0
  Lasts now domain =
      (path : String) × (file : tls.Bytes) × (cert : tls.Certificate) × (validity : tls.Validity)
      × (get_domain_path tls domain ≡ ok path)
      × (tls.read (tls.join path "cert.pem") ≡ ok file)
      × (tls.read_one file ≡ ok (some (x509_certificate cert)))
      × (tls.parse_x509_certificate cert ≡ ok validity)
      × (now + 2592000000000000 ≤ tls.not_after validity)

  lasts :
      (now expiration : ℕ)
      → expires tls now expiration ≡ false
      → now + 2592000000000000 ≤ expiration
  unfolding expires
  lasts now expiration e = ground arith

  kept :
      (now expiration : ℕ)
      → now + 2592000000000000 ≤ expiration
      → expires tls now expiration ≡ false
  unfolding expires
  kept now expiration h = ground arith

  item-Lasts :
      (now : ℕ) (i : Outcome (Option (Item tls.Certificate)))
      → item_needs tls now i ≡ false
      → (cert : tls.Certificate) × (i ≡ ok (some (x509_certificate cert)))
        × (parsed tls now (tls.parse_x509_certificate cert) ≡ false)
  unfolding item_needs
  item-Lasts now (ok (some (x509_certificate cert))) e = (cert, refl, e)
  item-Lasts now (ok (some other)) e = cc
  item-Lasts now (ok none) e = cc
  item-Lasts now (err m) e = cc
  item-Lasts now panic e = cc

  parsed-Lasts :
      (now : ℕ) (v : Outcome tls.Validity)
      → parsed tls now v ≡ false
      → (validity : tls.Validity) × (v ≡ ok validity)
        × (expires tls now (tls.not_after validity) ≡ false)
  unfolding parsed
  parsed-Lasts now (ok validity) e = (validity, refl, e)
  parsed-Lasts now (err m) e = cc
  parsed-Lasts now panic e = cc

  file-Lasts :
      (now : ℕ) (f : Outcome tls.Bytes)
      → file_needs tls now f ≡ false
      → (file : tls.Bytes) × (f ≡ ok file) × (item_needs tls now (tls.read_one file) ≡ false)
  unfolding file_needs
  file-Lasts now (ok file) e = (file, refl, e)
  file-Lasts now (err m) e = cc
  file-Lasts now panic e = cc

  path-Lasts :
      (now : ℕ) (p : Outcome String)
      → path_needs tls now p ≡ false
      → (path : String) × (p ≡ ok path)
        × (file_needs tls now (tls.read (tls.join path "cert.pem")) ≡ false)
  unfolding path_needs
  path-Lasts now (ok path) e = (path, refl, e)
  path-Lasts now (err m) e = cc
  path-Lasts now panic e = cc

  forth :
      (now : ℕ) (domain : String)
      → path_needs tls now (get_domain_path tls domain) ≡ false
      → Lasts now domain
  forth now domain e =
      let (path, p, e1) = path-Lasts now (get_domain_path tls domain) e in
      let (file, f, e2) = file-Lasts now (tls.read (tls.join path "cert.pem")) e1 in
      let (cert, c, e3) = item-Lasts now (tls.read_one file) e2 in
      let (validity, v, e4) = parsed-Lasts now (tls.parse_x509_certificate cert) e3 in
      (path, file, cert, validity, p, f, c, v, lasts now (tls.not_after validity) e4)

  back :
      (now : ℕ) (domain : String)
      → Lasts now domain
      → path_needs tls now (get_domain_path tls domain) ≡ false
  unfolding path_needs file_needs item_needs parsed
  back now domain (path, file, cert, validity, p, f, c, v, late) =
      rw p (rw f (rw c (rw v (kept now (tls.not_after validity) late))))

  unnamed : {domain : String} → str_eq domain "" ≡ false → domain ≢ ""
  unnamed {domain} e same = differ (sym ((eq_iff domain "").1 same) ∙ e)
    where
      differ : true ≡ false → ⊥
      differ e = cc

  -- A certificate of a domain with a name is left as it is exactly if its file begins with a
  -- certificate that lasts for at least 30 days from now; the domain without a name always wants
  -- a new one.
  pub needs_renewal-Lasts :
      (now : ℕ) (domain : String)
      → (needs_renewal tls now domain ≡ false) ↔ ((domain ≢ "") × Lasts now domain)
  unfolding needs_renewal
  needs_renewal-Lasts now domain = elim (Bool-cases (str_eq domain "")) [
    | inl same ↦ rw same (λ e. cc, λ l. absurd (l.0 ((eq_iff domain "").0 same)))
    | inr named ↦ rw named (λ e. (unnamed named, forth now domain e), λ l. back now domain l.1)
  ]

  inserted :
      (domain name : String) (key : CertifiedKey tls) (d : Option (CertifiedKey tls))
      (certs : List (String × CertifiedKey tls))
      → or_else (lookup name (insert domain key certs)) d
        ≡ (if str_eq domain name then some key else or_else (lookup name certs) d)
  inserted domain name key d certs = elim (Bool-cases (str_eq domain name)) [
    | inl same ↦ rw same (
        ap (λ k. or_else (lookup k (insert domain key certs)) d) (sym ((eq_iff domain name).0 same))
        ∙ ap (λ o. or_else o d) (lookup-insert_self domain key certs))
    | inr no_ ↦ rw no_ (ap (λ o. or_else o d) (lookup-insert_other domain name key certs no_))
  ]

  -- After a key was loaded for a domain, a client that names the domain gets that key; another name
  -- gets what it got before, except that a name without a key of its own gets the new key if the
  -- key was loaded as the default.
  resolve-load_cert :
      (domain cert_path key_path sni_name : String) (is_default : Bool) (r r' : SniCertResolver tls)
      → load_cert tls domain cert_path key_path is_default r ≡ ok r'
      → (key : CertifiedKey tls) × (read_key tls cert_path key_path ≡ ok key)
        × (resolve tls r' (some sni_name) ≡ (
            if str_eq domain sni_name
            then some key
            else or_else
                (lookup sni_name r.certs)
                (if is_default then some key else r.default_cert)))
  unfolding load_cert resolve
  resolve-load_cert domain cert_path key_path sni_name is_default r r' e =
      let (key, got, made) = bound-ok (read_key tls cert_path key_path) _ r' e in
      (
        key,
        got,
        ap (λ s. resolve tls s (some sni_name)) (sym (ok-inj made))
            ∙ inserted domain sni_name key (if is_default then some key else r.default_cert)
                r.certs,
      )
