-- ===== src/Compression.antt =====
-- rust-proxy/src/middleware/compression.rs: which responses are compressed, and how. The encoders
-- are the crates flate2 and zstd.
mod Choice
mod Decoding
mod Tests
use silverwind.Prelude.{
  ℕ, zero, suc, ◌+◌, ◌-◌, ◌*◌, ◌/◌, ◌%◌, ◌^◌, ◌≤◌, ◌<◌, String, ◌≡◌, refl, sym, ap, ◌∙◌, ◌≢◌, ◌↔◌,
  ◌⊎◌, inl, inr, Bool, true, false, not, ◌&&◌, ◌||◌, Option, none, some, List, [], ◌∷◌, ◌++◌, map,
  arith, eq_iff, eq_refl, ltb, leb, str_eq, ◌==◌, if◌then◌else◌, Bool-cases, Option-cases, lt→ltb,
  le→ltb, le→leb, lt→leb, length, get_elem?, is_empty, any, all, select, replicate, length-append,
  get_elem?_lt, All, All-get_elem?, All-select, select-holds, ℤ, pos, negsuc, to_u32, as_i32,
  add_i32, sub_i32, lt_ℤ, le_ℤ, min_ℤ, add_i32_pos, sub_i32_pos, as_i32_pos, Outcome, ok, err,
  panic, ◌>>=◌, ok_or, Outcome-cases, Done, or_else, and_then, Eq, string_eq, ◌⧺◌, contains_char,
  strip_prefix, is_some, starts_with, split, decimal, join, ends_with, contains_str,
}
use silverwind.External.{Http, Codecs}
use silverwind.Response.{Response, static_value}
use silverwind.Errors.{from, Cause}

pub data CompressionType : Type 0 where
  gzip zstd both : CompressionType

pub record Compression : Type 0 where
  pub compression_type : CompressionType
  pub level : ℤ
  pub min_size : ℕ
  pub excluded_content_types : List String
  pub enabled : Bool

-- `level.clamp(low, high)`.
clamp : ℤ → ℤ → ℤ → ℤ
clamp low high n = if lt_ℤ n low then low else if lt_ℤ high n then high else n

unfoldable pub should_compress : Compression → Option String → Bool
unfolding starts_with
should_compress c none = c.enabled
should_compress c (some ct) =
    c.enabled && not (any (λ excluded. starts_with ct excluded) c.excluded_content_types)

choose : CompressionType → (supports_gzip supports_zstd : Bool) → Option CompressionType
choose gzip g z = if g then some gzip else none
choose zstd g z = if z then some zstd else none
choose both g z = if z then some zstd else if g then some gzip else none

-- What a client's text of encodings lets the proxy take.
unfoldable pub supports : String → String → Bool
unfolding contains_str
supports accept_encoding name =
    contains_str accept_encoding name || contains_str accept_encoding "*"

abbrev pub get_encoding_value : CompressionType → String
get_encoding_value gzip = "gzip"
get_encoding_value zstd = "zstd"
get_encoding_value both = "gzip"

module _ (http : Http) where
  -- `headers.get(name)` as a text, if it is there and is one.
  pub text_at : http.HeaderMap → String → Option String
  text_at m name = elim (http.get m name) [ none ↦ none | some v ↦ http.to_str v ]

  unfoldable pub parse_accept_encoding : Compression → http.HeaderMap → Option CompressionType
  unfolding text_at choose supports
  parse_accept_encoding c request_headers = elim (text_at request_headers "accept-encoding") [
    | none ↦ none
    | some accept ↦ choose c.compression_type (supports accept "gzip") (supports accept "zstd")
  ]

  -- The type that was chosen, unless the response's headers stand against it.
  unless : Bool → Option CompressionType → Option CompressionType
  unless true chosen = none
  unless false chosen = chosen

  unfoldable pub should_compress_response :
      Compression → http.HeaderMap → http.HeaderMap → Option CompressionType
  unfolding unless parse_accept_encoding should_compress text_at
  should_compress_response c response_headers request_headers =
      unless
        (not c.enabled
          || is_some (http.get response_headers "content-encoding")
          || not (should_compress c (text_at response_headers "content-type")))
        (parse_accept_encoding c request_headers)

module _ (http : Http) (codecs : Codecs) where
  -- The error of an encoder begins with the step that failed.
  failed : String → Outcome codecs.Bytes → Outcome codecs.Bytes
  failed before (err e) = err (before ⧺ e)
  failed before o = o

  unfoldable pub compress_data : Compression → CompressionType → codecs.Bytes → Outcome codecs.Bytes
  unfolding clamp failed
  compress_data c gzip data_ = failed "Gzip " (codecs.gzip (clamp (pos 0) (pos 9) c.level) data_)
  compress_data c zstd data_ = failed "Zstd " (codecs.zstd (clamp (pos 1) (pos 22) c.level) data_)
  compress_data c both data_ = ok data_

  with_body : Response http codecs → codecs.Bytes → Response http codecs
  with_body r b = record r { body = ok b }

  -- The headers and the body of a compressed response.
  encoded :
      Response http codecs
      → Outcome http.HeaderValue
      → codecs.Bytes
      → Response http codecs × Outcome Done
  unfolding with_body
  encoded r (ok v) b = (
    record r {
      headers = http.insert (http.remove r.headers "content-length") "content-encoding" v;
      body = ok b;
    },
    ok tt,
  )
  encoded r (err e) b = (with_body r codecs.empty, err e)
  encoded r panic b = (with_body r codecs.empty, panic)

  -- The compressed bytes are used only if they are fewer.
  smaller :
      Response http codecs
      → CompressionType
      → codecs.Bytes
      → Outcome codecs.Bytes
      → Response http codecs × Outcome Done
  unfolding encoded with_body static_value
  smaller r chosen data_ (ok compressed) =
      if leb (codecs.size data_) (codecs.size compressed)
      then (with_body r data_, ok tt)
      else encoded r (static_value http (get_encoding_value chosen)) compressed
  smaller r chosen data_ (err e) = (with_body r codecs.empty, err e)
  smaller r chosen data_ panic = (with_body r codecs.empty, panic)

  -- The body was taken out of the response before it is read.
  compressed_from :
      Compression
      → Response http codecs
      → CompressionType
      → Outcome codecs.Bytes
      → Response http codecs × Outcome Done
  unfolding smaller compress_data with_body
  compressed_from c r chosen (ok data_) =
      if ltb (codecs.size data_) c.min_size
      then (with_body r data_, ok tt)
      else smaller r chosen data_ (compress_data c chosen data_)
  compressed_from c r chosen (err e) =
      (with_body r codecs.empty, err ("Failed to collect response body: " ⧺ e))
  compressed_from c r chosen panic = (with_body r codecs.empty, panic)

  unfoldable pub handle_response :
      Compression → Response http codecs → http.HeaderMap → Response http codecs × Outcome Done
  unfolding compressed_from should_compress_response
  handle_response c r inbound_headers =
      elim (should_compress_response http c r.headers inbound_headers) [
        | none ↦ (r, ok tt)
        | some chosen ↦ compressed_from c r chosen r.body
      ]
