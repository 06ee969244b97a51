-- ===== src/Grpc.antt =====
-- rust-proxy/src/proxy/http2/grpc_proxy.rs: a request of a gRPC service, from the choice of its
-- destination to the frames of its answer. The listener and TLS are left out, and so are the logs
-- of what a copy of frames comes to.
pub mod Clients
pub mod Streams
mod Sent
mod Answered
mod Tests
use silverwind.Prelude.{
  ℕ, zero, suc, ◌+◌, ◌-◌, ◌*◌, ◌/◌, ◌%◌, ◌^◌, ◌≤◌, ◌<◌, String, ◌≡◌, refl, sym, ap, ◌∙◌, ◌≢◌, ◌↔◌,
  ◌⊎◌, inl, inr, Bool, true, false, not, ◌&&◌, ◌||◌, Option, none, some, List, [], ◌∷◌, ◌++◌, map,
  arith, eq_iff, eq_refl, ltb, leb, str_eq, ◌==◌, if◌then◌else◌, Bool-cases, Option-cases, lt→ltb,
  le→ltb, le→leb, lt→leb, length, get_elem?, is_empty, any, all, select, replicate, length-append,
  get_elem?_lt, All, All-get_elem?, All-select, select-holds, ℤ, pos, negsuc, to_u32, as_i32,
  add_i32, sub_i32, lt_ℤ, le_ℤ, min_ℤ, add_i32_pos, sub_i32_pos, as_i32_pos, Outcome, ok, err,
  panic, ◌>>=◌, ok_or, Outcome-cases, Done, or_else, and_then, map_err, ok-inj, some-inj, none≢some,
  Eq, string_eq, ◌⧺◌, contains_char, strip_prefix, is_some, starts_with, split, decimal, int_text,
  join, ends_with, contains_str,
}
use silverwind.Grpc.Streams.{RecvStream, SendStream, Frame, copy_io}
use silverwind.Errors.{from, Cause}
use silverwind.External.{Http, Codecs, Uris, Urls, RegexEngine, IpNets, Float}
use silverwind.Authentication.{Crypto}
use silverwind.Middleware.{Reading}
use silverwind.Destination.{HandlingResult, DestinationResult, matched, Shared, get_destination}

-- The parts of a response without its body.
pub record Head (http : Http) : Type 0 where
  pub status : ℕ
  pub headers : http.HeaderMap

-- A call of the upstream server: where it goes, and the head of the request.
pub record Call (http : Http) (uris : Uris) (Addr : Type 0) : Type 0 where
  pub https : Bool
  pub addr : Addr
  pub method : String
  pub uri : uris.Uri
  pub headers : http.HeaderMap

-- std's and tokio's sockets, rustls and h2's client and server. An error is the library's message.
-- The answer to a call may depend on the frames of its body.
pub record Network (http : Http) (codecs : Codecs) (uris : Uris) : Type 1 where
  pub Addr : Type 0
  pub Stream : Type 0
  pub ServerName : Type 0
  pub SendRequest : Type 0
  pub to_socket_addrs : String → Outcome (List Addr)
  pub connect : Addr → Outcome Stream
  pub server_name : String → Outcome ServerName
  pub tls_connect : ServerName → Stream → Outcome Stream
  pub handshake : Stream → Outcome SendRequest
  pub ready : SendRequest → Outcome SendRequest
  pub send_request : SendRequest → Call http uris Addr → Outcome (SendStream http codecs)
  pub response :
      Call http uris Addr → List (Frame http codecs) → Outcome (Head http × RecvStream http codecs)
  pub send_response : Head http → Bool → Outcome (SendStream http codecs)

-- What a request leads to: the call with the frames of its body, the head of the answer with the
-- mark that ends the stream, the frames of the answer's body, and the result.
pub record Trip (http : Http) (codecs : Codecs) (uris : Uris) (Addr : Type 0) : Type 0 where
  pub sent : Option (Call http uris Addr)
  pub frames : List (Frame http codecs)
  pub responded : Option (Head http × Bool)
  pub returned : List (Frame http codecs)
  pub result : Outcome Done

-- A request as the listener hands it on.
pub record Inbound (http : Http) (codecs : Codecs) : Type 0 where
  pub ip : String
  pub method : String
  pub path_and_query : Option String
  pub headers : http.HeaderMap
  pub body : RecvStream http codecs

is_matched : {http : Http} → DestinationResult http → Bool
is_matched (matched handling_result) = true
is_matched _ = false

as_handling_result : {http : Http} → DestinationResult http → Option HandlingResult
as_handling_result (matched handling_result) = some handling_result
as_handling_result _ = none

module _ (http : Http) (codecs : Codecs) (uris : Uris) (urls : Urls)
    (network : Network http codecs uris) (build_error : String) where
  target : DestinationResult http → Outcome HandlingResult
  unfolding is_matched as_handling_result
  target check_result =
      if is_matched check_result
      then ok_or (as_handling_result check_result) "check_result is none"
      else err "The request has been denied by the proxy!"

  first_addr : List network.Addr → Outcome network.Addr
  first_addr [] = err "Parse the domain error!"
  first_addr (addr ∷ addrs) = ok addr

  address : String → ℕ → Outcome network.Addr
  unfolding first_addr decimal
  address host port =
      map_err (from Cause.io) (network.to_socket_addrs (host ⧺ (":" ⧺ decimal port))) >>= first_addr

  send_request_poll : Bool → String → network.Addr → Outcome network.SendRequest
  send_request_poll true host addr = map_err (from Cause.io) (network.connect addr) >>= λ stream.
      map_err (from Cause.dns_name) (network.server_name host) >>= λ domain.
      map_err (from Cause.io) (network.tls_connect domain stream) >>= λ tls.
      map_err (from Cause.h2) (network.handshake tls)
  send_request_poll false host addr = map_err (from Cause.io) (network.connect addr) >>= λ stream.
      map_err (from Cause.h2) (network.handshake stream)

  -- `Request::builder()`, whose errors come to light in `body(())`.
  request : Bool → network.Addr → urls.Url → Outcome (Call http uris network.Addr)
  request https addr url =
      ok_or (uris.parse (urls.text url)) (from Cause.http_message build_error) >>= λ uri.
      ok_or (http.of_str "application/grpc") (from Cause.http_message build_error) >>= λ grpc.
      ok_or (http.of_str "trailers") (from Cause.http_message build_error) >>= λ trailers.
      ok (record {
        https = https;
        addr = addr;
        method = "POST";
        uri = uri;
        headers = http.append (http.append http.empty "content-type" grpc) "te" trailers;
      })

  abbrev pub Prepared : Type 0
  Prepared = network.SendRequest × Call http uris network.Addr

  -- From the path of the target to the call that is ready to be sent.
  connected : Bool → String → ℕ → urls.Url → Outcome Prepared
  unfolding address send_request_poll request
  connected https host port url = address host port >>= λ addr.
      send_request_poll https host addr >>= λ poll.
      map_err (from Cause.h2) (network.ready poll) >>= λ send_request.
      request https addr url >>= λ call. ok (send_request, call)

  prepared : HandlingResult → Outcome Prepared
  unfolding connected contains_str
  prepared hr =
      ok_or (urls.parse hr.request_path) (from Cause.url_parse (urls.parse_error hr.request_path))
      >>= λ url. ok_or (urls.host url) "Parse host error!" >>= λ host.
          ok_or (urls.port url) "Parse host error!" >>= λ port.
          connected (contains_str hr.request_path "https") host port url

  unsent : Outcome Done → Trip http codecs uris network.Addr
  unsent result = record {
    sent = none;
    frames = [];
    responded = none;
    returned = [];
    result = result;
  }

  differs : Option http.HeaderValue → Bool
  differs none = false
  differs (some item) = not (str_eq (elim (http.to_str item) [ none ↦ "" | some s ↦ s ]) "0")

  unfoldable pub is_grpc_status_ok : Head http → Bool
  unfolding differs
  is_grpc_status_ok head = differs (http.get head.headers "grpc-status")

  responded :
      Head http
      → RecvStream http codecs
      → Trip http codecs uris network.Addr
      → Outcome (SendStream http codecs)
      → Trip http codecs uris network.Addr
  unfolding copy_io is_grpc_status_ok
  responded head body trip (ok send_stream) = record trip {
    responded = some (head, is_grpc_status_ok head);
    returned = (copy_io http codecs send_stream body).0;
  }
  responded head body trip (err e) = record trip { result = err (from Cause.h2 e) }
  responded head body trip panic = record trip { result = panic }

  answered :
      Trip http codecs uris network.Addr
      → Outcome (Head http × RecvStream http codecs)
      → Trip http codecs uris network.Addr
  unfolding responded is_grpc_status_ok
  answered trip (ok (head, body)) =
      responded head body trip (network.send_response head (is_grpc_status_ok head))
  answered trip (err e) = record trip { result = err (from Cause.h2 e) }
  answered trip panic = record trip { result = panic }

  called :
      RecvStream http codecs
      → Call http uris network.Addr
      → Outcome (SendStream http codecs)
      → Trip http codecs uris network.Addr
  unfolding copy_io answered unsent
  called body call (ok send_stream) =
      let frames = (copy_io http codecs send_stream body).0 in
      answered (record (unsent (ok tt)) { sent = some call; frames = frames })
        (network.response call frames)
  called body call (err e) = unsent (err (from Cause.h2 e))
  called body call panic = unsent panic

  sending : RecvStream http codecs → Outcome Prepared → Trip http codecs uris network.Addr
  unfolding called unsent
  sending body (ok (send_request, call)) = called body call (network.send_request send_request call)
  sending body (err e) = unsent (err e)
  sending body panic = unsent panic

  -- From the answer to the choice of the destination on.
  outbound :
      RecvStream http codecs → Outcome (DestinationResult http) → Trip http codecs uris network.Addr
  unfolding sending target prepared
  outbound body check_result =
      sending body (check_result >>= λ check_result. target check_result >>= prepared)

  module _ (engine : RegexEngine) (crypto : Crypto) (nets : IpNets) (float : Float)
      (first_key : List (String × ℤ) → Option String) (poison_error : String) (pick : ℕ → ℕ)
      (join : String → String → String) where
    unfoldable pub request_outbound :
        (ℕ → Reading)
        → ℤ
        → Inbound http codecs
        → Shared engine float
        → Shared engine float × Trip http codecs uris network.Addr
    unfolding outbound get_destination
    request_outbound now port inbound shared =
        let (shared', check_result) =
          get_destination http engine crypto nets float first_key poison_error pick join now
            inbound.path_and_query inbound.method inbound.ip inbound.headers port shared in
        (shared', outbound inbound.body check_result)
