-- ===== src/Compression/Choice.antt =====
-- When a response is compressed, and with which encoding.
use silverwind.Prelude.{
  String, ◌≡◌, refl, sym, ap, ◌∙◌, ◌≢◌, ◌⊎◌, inl, inr, Bool, true, false, not, ◌||◌, Option, none,
  some, Bool-cases, Option-cases, any, some-inj, none≢some, string_eq, is_some, starts_with,
}
use silverwind.External.{Http}
use silverwind.Compression.{
  Compression, CompressionType, gzip, zstd, both, choose, supports, text_at, unless,
  get_encoding_value, parse_accept_encoding, should_compress, should_compress_response,
}

module _ (http : Http) where
  -- The client's header names the encoding, or takes any.
  abbrev pub IsAccepted : http.HeaderMap → CompressionType → Type 0
  IsAccepted request t =
      (accept : String) × (text_at http request "accept-encoding" ≡ some accept)
      × (supports accept (get_encoding_value t) ≡ true)

  -- The choice is one of the two encodings, and the client supports it.
  IsChoice : (g z : Bool) → CompressionType → Type 0
  IsChoice g z t = ((t ≡ gzip) × (g ≡ true)) ⊎ ((t ≡ zstd) × (z ≡ true))

  choose-IsChoice :
      (ct : CompressionType) (g z : Bool) (t : CompressionType)
      → choose ct g z ≡ some t
      → IsChoice g z t
  unfolding choose IsChoice
  choose-IsChoice gzip true z t e = inl (sym (some-inj e), refl)
  choose-IsChoice gzip false z t e = cc
  choose-IsChoice zstd g true t e = inr (sym (some-inj e), refl)
  choose-IsChoice zstd g false t e = cc
  choose-IsChoice both g true t e = inr (sym (some-inj e), refl)
  choose-IsChoice both true false t e = inl (sym (some-inj e), refl)
  choose-IsChoice both false false t e = cc

  gzip≢both : gzip ≢ both
  gzip≢both p = cc

  zstd≢both : zstd ≢ both
  zstd≢both p = cc

  parse-IsAccepted :
      (c : Compression) (request : http.HeaderMap) (t : CompressionType)
      → parse_accept_encoding http c request ≡ some t
      → IsAccepted request t × (t ≢ both)
  unfolding parse_accept_encoding IsChoice
  parse-IsAccepted c request t e = elim (Option-cases (text_at http request "accept-encoding")) [
    | inl missing ↦ absurd (none≢some (rw (missing, parse_accept_encoding) at e))
    | inr (accept, found) ↦ of_choice accept found (
        choose-IsChoice c.compression_type (supports accept "gzip") (supports accept "zstd") t
          (rw (found, parse_accept_encoding) at e))
  ]
    where
      of_choice :
          (accept : String)
          → text_at http request "accept-encoding" ≡ some accept
          → IsChoice (supports accept "gzip") (supports accept "zstd") t
          → IsAccepted request t × (t ≢ both)
      of_choice accept found (inl (e, g)) = ((accept, found, rw e g), λ b. gzip≢both (sym e ∙ b))
      of_choice accept found (inr (e, z)) = ((accept, found, rw e z), λ b. zstd≢both (sym e ∙ b))

  pub should_compress_response-IsAccepted :
      (c : Compression) (answered request : http.HeaderMap) (t : CompressionType)
      → should_compress_response http c answered request ≡ some t
      → IsAccepted request t × (t ≢ both)
  unfolding should_compress_response
  should_compress_response-IsAccepted c answered request t e =
      parse-IsAccepted c request t (allowed_choice _ (parse_accept_encoding http c request) e)
    where
      allowed_choice :
          (b : Bool) (o : Option CompressionType) → unless http b o ≡ some t → o ≡ some t
      allowed_choice true o e = absurd (none≢some e)
      allowed_choice false o e = e

  -- The client's header, if it has one, names no encoding that the settings let the proxy use.
  abbrev pub IsForNone : Compression → http.HeaderMap → Type 0
  IsForNone c request =
      (accept : String)
      → text_at http request "accept-encoding" ≡ some accept
      → (c.compression_type ≢ zstd → supports accept "gzip" ≡ false)
        × (c.compression_type ≢ gzip → supports accept "zstd" ≡ false)

  -- The type of the content begins with an excluded one.
  abbrev pub IsExcluded : Compression → http.HeaderMap → Type 0
  IsExcluded c answered =
      (ct : String) × (text_at http answered "content-type" ≡ some ct)
      × (any (λ excluded. starts_with ct excluded) c.excluded_content_types ≡ true)

  -- Compression is off, the response is encoded already, its type is excluded, or the client takes
  -- none of the encodings.
  abbrev pub IsUnwanted : Compression → http.HeaderMap → http.HeaderMap → Type 0
  IsUnwanted c answered request =
      (c.enabled ≡ false)
      ⊎ (((v : http.HeaderValue) × (http.get answered "content-encoding" ≡ some v))
          ⊎ (IsExcluded c answered ⊎ IsForNone c request))

  choose-none :
      (ct : CompressionType) (g z : Bool)
      → choose ct g z ≡ none
      → (ct ≢ zstd → g ≡ false) × (ct ≢ gzip → z ≡ false)
  unfolding choose
  choose-none gzip true z e = cc
  choose-none gzip false z e = (λ n. refl, λ n. absurd (n refl))
  choose-none zstd g true e = cc
  choose-none zstd g false e = (λ n. absurd (n refl), λ n. refl)
  choose-none both g true e = cc
  choose-none both true false e = cc
  choose-none both false false e = (λ n. refl, λ n. refl)

  parse-IsForNone :
      (c : Compression) (request : http.HeaderMap)
      → parse_accept_encoding http c request ≡ none
      → IsForNone c request
  unfolding parse_accept_encoding
  parse-IsForNone c request e accept found =
      choose-none c.compression_type (supports accept "gzip") (supports accept "zstd")
        (rw (found, parse_accept_encoding) at e)

  excluded :
      (c : Compression) (o : Option String)
      → c.enabled ≡ true
      → should_compress c o ≡ false
      → (ct : String) × (o ≡ some ct)
        × (any (λ excluded. starts_with ct excluded) c.excluded_content_types ≡ true)
  unfolding should_compress
  excluded c none on e = absurd (differ (sym on ∙ e))
    where
      differ : true ≡ false → ⊥
      differ e = cc
  excluded c (some ct) on e = (
    ct,
    refl,
    held (any (λ excluded. starts_with ct excluded) c.excluded_content_types) (rw on at e),
  )
    where
      held : (b : Bool) → not b ≡ false → b ≡ true
      held true e = refl
      held false e = cc

  pub should_compress_response-IsUnwanted :
      (c : Compression) (answered request : http.HeaderMap)
      → should_compress_response http c answered request ≡ none
      → IsUnwanted c answered request
  unfolding should_compress_response
  should_compress_response-IsUnwanted c answered request e = elim (Bool-cases c.enabled) [
    | inl on ↦ elim (Option-cases (http.get answered "content-encoding")) [
      | inl plain ↦ elim (Bool-cases (should_compress c (text_at http answered "content-type"))) [
        | inl fit ↦ inr (
            inr (
              inr (
                parse-IsForNone c request (
                  fits c.enabled _ _ (parse_accept_encoding http c request) on (ap is_some plain)
                    fit e))))
        | inr unfit ↦ inr (inr (inl (excluded c _ on unfit)))
      ]
      | inr (v, there) ↦ inr (inl (v, there))
    ]
    | inr off ↦ inl off
  ]
    where
      fits :
          (on encoded fit : Bool) (o : Option CompressionType)
          → on ≡ true
          → encoded ≡ false
          → fit ≡ true
          → unless http (not on || encoded || not fit) o ≡ none
          → o ≡ none
      fits true false true o p q r e = e
      fits true false false o p q r e = cc
      fits true true fit o p q r e = cc
      fits false encoded fit o p q r e = cc
