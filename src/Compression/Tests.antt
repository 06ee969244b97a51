-- ===== src/Compression/Tests.antt =====
-- A response to a client that takes gzip.
use silverwind.Prelude.{
  ℕ, String, ◌≡◌, refl, sym, ap, Bool, true, false, Option, none, some, [], ◌∷◌, if◌then◌else◌, pos,
  Outcome, ok, err, ok-inj, string_eq, starts_with, contains_str,
}
use silverwind.External.{same_name, Codecs}
use silverwind.External.Samples.{plain_http}
use silverwind.Response.{Response}
use silverwind.Compression.{
  Compression, gzip, both, handle_response, should_compress, should_compress_response,
  parse_accept_encoding, supports, compress_data,
}

abbrev config : Compression
config = record {
  compression_type = both;
  level = pos 6;
  min_size = 1024;
  excluded_content_types = "image/png" ∷ [];
  enabled = true;
}

abbrev takes_gzip : String → Option String
takes_gzip k = if same_name "accept-encoding" k then some "gzip, br" else none

-- Data are a number of bytes, and whether they are encoded; encoded data have one byte.
abbrev sizes : Bool × ℕ → ℕ
sizes (true, n) = 1
sizes (false, n) = n

abbrev shrink : Bool × ℕ → Outcome (Bool × ℕ)
shrink (true, n) = err "encoded"
shrink (false, n) = ok (true, n)

abbrev grow : Bool × ℕ → Option (Bool × ℕ)
grow (true, n) = some (false, n)
grow (false, n) = none

grow-shrink : (a b : Bool × ℕ) → shrink a ≡ ok b → grow b ≡ some a
grow-shrink (true, n) b e = cc
grow-shrink (false, n) b e = ap grow (sym (ok-inj e))

abbrev small_codecs : Codecs
small_codecs = record {
  Bytes = Bool × ℕ;
  empty = (false, 0);
  of_text = λ s. (false, 0);
  size = sizes;
  gzip = λ level a. shrink a;
  zstd = λ level a. shrink a;
  gunzip = grow;
  unzstd = grow;
  gunzip-gzip = λ level a b e. grow-shrink a b e;
  unzstd-zstd = λ level a b e. grow-shrink a b e;
}

-- A page of 2000 bytes with a length.
abbrev page : Response plain_http small_codecs
page = record {
  status = 200;
  headers = λ k. if same_name "content-length" k then some "2000" else none;
  body = ok (false, 2000);
}

chosen : should_compress_response plain_http config page.headers takes_gzip ≡ some gzip
unfolding should_compress_response parse_accept_encoding supports contains_str starts_with same_name
    should_compress
chosen = refl

is_encoded :
    (handle_response plain_http small_codecs config page takes_gzip).0.body ≡ ok (true, 2000)
unfolding handle_response should_compress_response parse_accept_encoding supports contains_str
    starts_with same_name should_compress compress_data
is_encoded = refl
