-- ===== src/Upstream.antt =====
-- rust-proxy/src/proxy/http1: what the proxy hands on. A request that is sent to an upstream server
-- is part of the model's result, and so is the server's answer, which is an argument.
use silverwind.Prelude.{ℕ, String, Bool, Option, Outcome, ok, ◌>>=◌, map_err, string_eq, is_some}
use silverwind.Errors.{from, Cause}
use silverwind.External.{Http, Codecs, Uris}
use silverwind.Response.{Response}

-- hyper's Request. The body comes to its bytes or fails with an AppError.
pub record Request (http : Http) (codecs : Codecs) (uris : Uris) : Type 0 where
  pub method : String
  pub uri : uris.Uri
  pub headers : http.HeaderMap
  pub body : Outcome codecs.Bytes

-- A call of a client of HttpClients, with its timeout in milliseconds.
pub record Call (http : Http) (codecs : Codecs) (uris : Uris) : Type 0 where
  pub https : Bool
  pub timeout : ℕ
  pub request : Request http codecs uris

-- hyper's clients, hyper_staticfile and the gRPC clients, if the port has them: `none` is a call
-- whose time ran out, and an error is the library's message. `json` is the answer of a gRPC
-- service as a text.
pub record Servers (http : Http) (codecs : Codecs) (uris : Uris) : Type 1 where
  pub answer : Call http codecs uris → Option (Outcome (Response http codecs))
  pub serve_file : String → Request http codecs uris → Outcome (Response http codecs)
  pub GrpcClient : Type 0
  pub grpc : Option (String → Outcome GrpcClient)
  pub do_request : GrpcClient → (service method : String) → codecs.Bytes → Outcome String

-- A call that is handed to the gRPC client of an endpoint.
pub record GrpcCall (codecs : Codecs) : Type 0 where
  pub endpoint : String
  pub service : String
  pub method : String
  pub body : codecs.Bytes

-- What goes to an upstream server: a request of HTTP, or a call of a gRPC service.
pub data Sent (http : Http) (codecs : Codecs) (uris : Uris) : Type 0 where
  to_server : Call http codecs uris → Sent http codecs uris
  to_grpc : GrpcCall codecs → Sent http codecs uris

-- A result beside the call that was made for it, if there was one.
pub record Exchange (http : Http) (codecs : Codecs) (uris : Uris) : Type 0 where
  pub sent : Option (Sent http codecs uris)
  pub response : Outcome (Response http codecs)

module _ (http : Http) (codecs : Codecs) (uris : Uris) where
  unfoldable pub contains_key : http.HeaderMap → String → Bool
  contains_key m name = is_some (http.get m name)

  -- The errors of a body become AppErrors.
  unfoldable pub map_body : (String → String) → Response http codecs → Response http codecs
  map_body f r = record r { body = map_err f r.body }

  -- An answer that came.
  unfoldable pub received : Outcome (Response http codecs) → Outcome (Response http codecs)
  unfolding map_body
  received response =
      map_err (from Cause.client) response >>= λ r. ok (map_body (from Cause.hyper) r)
