-- ===== src/Compression/Decoding.antt =====
-- What a client gets of a response that was, or was not, compressed.
use silverwind.Prelude.{
  ◌≤◌, ◌<◌, String, ◌≡◌, ◌⊎◌, Option, none, some, if◌then◌else◌, ℤ, Outcome, ok, Done, string_eq,
}
use silverwind.External.{Http, Codecs, same_name}
use silverwind.Compression.Choice.{IsAccepted, IsUnwanted}
use silverwind.Response.{Response}
use silverwind.Compression.{Compression, CompressionType, gzip, zstd, both, get_encoding_value}

module _ (http : Http) (codecs : Codecs) where
  -- What undoes an encoding.
  pub decode : CompressionType → codecs.Bytes → Option codecs.Bytes
  decode gzip b = codecs.gunzip b
  decode zstd b = codecs.unzstd b
  decode both b = none

  -- The second response carries the data of the first one encoded: its header names an encoding that
  -- the client accepts, its body is shorter than the data, which have the size that is asked for,
  -- and decodes to them. It has no length, and its status and its other headers are those of the
  -- first response.
  pub IsEncoded :
      Compression
      → http.HeaderMap
      → codecs.Bytes
      → Response http codecs
      → Response http codecs
      → Type 0
  IsEncoded c request data_ r r' =
      (t : CompressionType) × (v : http.HeaderValue) × (b : codecs.Bytes) × (r'.body ≡ ok b)
      × (decode t b ≡ some data_)
      × (codecs.size b < codecs.size data_)
      × (c.min_size ≤ codecs.size data_)
      × (r'.status ≡ r.status)
      × ((k : String)
          → http.get r'.headers k ≡ (
              if same_name "content-encoding" k
              then some v
              else if same_name "content-length" k
              then none
              else http.get r.headers k))
      × (http.to_str v ≡ some (get_encoding_value t))
      × IsAccepted http request t

  -- An encoding of the data with some level.
  abbrev pub Encodes : CompressionType → codecs.Bytes → codecs.Bytes → Type 0
  Encodes gzip data_ b = (level : ℤ) × (codecs.gzip level data_ ≡ ok b)
  Encodes zstd data_ b = (level : ℤ) × (codecs.zstd level data_ ≡ ok b)
  Encodes both data_ b = ⊥

  -- The response is as it was, for a reason: compression is unwanted, the data are too short, or no
  -- shorter when they are encoded.
  abbrev pub IsLeft :
      Compression
      → http.HeaderMap
      → codecs.Bytes
      → Response http codecs
      → Response http codecs
      → Type 0
  IsLeft c request data_ r r' =
      (r' ≡ r)
      × (IsUnwanted http c r.headers request
          ⊎ ((codecs.size data_ < c.min_size)
              ⊎ ((t : CompressionType) × (b : codecs.Bytes) × IsAccepted http request t
                  × Encodes t data_ b
                  × (codecs.size data_ ≤ codecs.size b))))

  -- The call's success with a response that is as it was, or encoded.
  Finished :
      Compression
      → http.HeaderMap
      → codecs.Bytes
      → Response http codecs
      → Response http codecs × Outcome Done
      → Type 0
  Finished c request data_ r (r', answer) =
      answer ≡ ok tt → IsLeft c request data_ r r' ⊎ IsEncoded c request data_ r r'
