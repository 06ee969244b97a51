-- ===== src/Grpc/Sent.antt =====
-- What a request makes the gRPC proxy send.
use silverwind.Prelude.{
  ℕ, String, ◌≡◌, refl, sym, ap, ◌∙◌, Bool, Option, none, some, List, ℤ, Outcome, ok, err, panic,
  ok_or, map_err, ok-inj, some-inj, string_eq, contains_str,
}
use mathlib.Core.Path.{subst}
use silverwind.Prelude.Loops.{bound-ok}
use silverwind.Errors.{from, Cause}
use silverwind.External.{Http, Codecs, Uris, Urls, RegexEngine, IpNets, Float}
use silverwind.Authentication.{Crypto}
use silverwind.Middleware.{Reading}
use silverwind.Destination.{
  HandlingResult, DestinationResult, matched, not_allowed, no_match_found, Shared, get_destination,
}
use silverwind.Grpc.{
  Call, Network, Inbound, Trip, Head, Prepared, target, is_matched, as_handling_result, request,
  connected, address, send_request_poll, outbound, prepared, unsent, responded, answered, called,
  sending, request_outbound,
}
use silverwind.Grpc.Streams.{RecvStream, SendStream}

module _ (http : Http) (codecs : Codecs) (uris : Uris) (urls : Urls)
    (network : Network http codecs uris) (build_error : String) where
  -- The call goes to the URL of the target, to which `Url::port` gives a port.
  abbrev pub IsAsked : HandlingResult → Call http uris network.Addr → Type 0
  IsAsked hr call =
      (url : urls.Url) × (port : ℕ) × (urls.parse hr.request_path ≡ some url)
      × (urls.port url ≡ some port)
      × (uris.parse (urls.text url) ≡ some call.uri)
      × (call.method ≡ "POST")
      × (call.https ≡ contains_str hr.request_path "https")

  ok_or-some : {A : Type 0} (o : Option A) (e : String) (a : A) → ok_or o e ≡ ok a → o ≡ some a
  ok_or-some none e a h = cc
  ok_or-some (some b) e a h = ap some (ok-inj h)

  target-matched :
      (r : DestinationResult http) (hr : HandlingResult)
      → target http codecs uris urls network build_error r ≡ ok hr
      → r ≡ matched hr
  unfolding target is_matched as_handling_result
  target-matched (matched hr) hr' e = ap matched (ok-inj e)
  target-matched (not_allowed d) hr' e = cc
  target-matched no_match_found hr' e = cc

  IsFrom : Bool → urls.Url → Call http uris network.Addr → Type 0
  IsFrom https url call =
      (uris.parse (urls.text url) ≡ some call.uri) × (call.method ≡ "POST") × (call.https ≡ https)

  request-IsFrom :
      (https : Bool) (addr : network.Addr) (url : urls.Url) (call : Call http uris network.Addr)
      → request http codecs uris urls network build_error https addr url ≡ ok call
      → IsFrom https url call
  unfolding request IsFrom
  request-IsFrom https addr url call e =
      let (uri, parsed, e1) = bound-ok (ok_or (uris.parse (urls.text url)) _) _ call e in
      let (grpc, g, e2) = bound-ok (ok_or (http.of_str "application/grpc") _) _ call e1 in
      let (trailers, t, e3) = bound-ok (ok_or (http.of_str "trailers") _) _ call e2 in
      let made = sym (ok-inj e3) in
      (
        ok_or-some _ _ uri parsed ∙ ap (λ (c : Call http uris network.Addr). some c.uri) (sym made),
        ap (λ (c : Call http uris network.Addr). c.method) made,
        ap (λ (c : Call http uris network.Addr). c.https) made,
      )

  connected-IsFrom :
      (https : Bool) (host : String) (port : ℕ) (url : urls.Url)
      (p : Prepared http codecs uris urls network build_error)
      → connected http codecs uris urls network build_error https host port url ≡ ok p
      → IsFrom https url p.1
  unfolding connected
  connected-IsFrom https host port url p e =
      let (addr, a, e1) =
        bound-ok (address http codecs uris urls network build_error host port) _ p e in
      let (poll, b, e2) =
        bound-ok (send_request_poll http codecs uris urls network build_error https host addr) _ p
          e1 in
      let (send_request, c, e3) = bound-ok (map_err (from Cause.h2) (network.ready poll)) _ p e2 in
      let (call, made, e4) =
        bound-ok (request http codecs uris urls network build_error https addr url) _ p e3 in
      subst (λ (q : Prepared http codecs uris urls network build_error). IsFrom https url q.1)
        (ok-inj e4) (request-IsFrom https addr url call made)

  prepared-IsAsked :
      (hr : HandlingResult) (p : Prepared http codecs uris urls network build_error)
      → prepared http codecs uris urls network build_error hr ≡ ok p
      → IsAsked hr p.1
  unfolding prepared IsFrom
  prepared-IsAsked hr p e =
      let (url, u, e1) = bound-ok (ok_or (urls.parse hr.request_path) _) _ p e in
      let (host, h, e2) = bound-ok (ok_or (urls.host url) _) _ p e1 in
      let (port, q, e3) = bound-ok (ok_or (urls.port url) _) _ p e2 in
      let (uri, method, https) = connected-IsFrom _ host port url p e3 in
      (url, port, ok_or-some _ _ url u, ok_or-some _ _ port q, uri, method, https)

  responded-sent :
      (head : Head http) (body : RecvStream http codecs) (trip : Trip http codecs uris network.Addr)
      (s : Outcome (SendStream http codecs))
      → (responded http codecs uris urls network build_error head body trip s).sent ≡ trip.sent
  unfolding responded
  responded-sent head body trip (ok s) = refl
  responded-sent head body trip (err e) = refl
  responded-sent head body trip panic = refl

  answered-sent :
      (trip : Trip http codecs uris network.Addr)
      (answer : Outcome (Head http × RecvStream http codecs))
      → (answered http codecs uris urls network build_error trip answer).sent ≡ trip.sent
  unfolding answered
  answered-sent trip (ok (head, body)) = responded-sent head body trip _
  answered-sent trip (err e) = refl
  answered-sent trip panic = refl

  called-sent :
      (body : RecvStream http codecs) (call call' : Call http uris network.Addr)
      (s : Outcome (SendStream http codecs))
      → (called http codecs uris urls network build_error body call s).sent ≡ some call'
      → call ≡ call'
  unfolding called unsent
  called-sent body call call' (ok s) e = some-inj (sym (answered-sent _ _) ∙ e)
  called-sent body call call' (err m) e = cc
  called-sent body call call' panic e = cc

  sending-sent :
      (body : RecvStream http codecs)
      (p : Outcome (Prepared http codecs uris urls network build_error))
      (call : Call http uris network.Addr)
      → (sending http codecs uris urls network build_error body p).sent ≡ some call
      → (q : Prepared http codecs uris urls network build_error) × (p ≡ ok q) × (q.1 ≡ call)
  unfolding sending unsent
  sending-sent body (ok (poll, made)) call e = ((poll, made), refl, called-sent body made call _ e)
  sending-sent body (err m) call e = cc
  sending-sent body panic call e = cc

  outbound-IsAsked :
      (body : RecvStream http codecs) (check_result : Outcome (DestinationResult http))
      (call : Call http uris network.Addr)
      → (outbound http codecs uris urls network build_error body check_result).sent ≡ some call
      → (hr : HandlingResult) × (check_result ≡ ok (matched hr)) × IsAsked hr call
  unfolding outbound
  outbound-IsAsked body check_result call e =
      let (p, made, same) = sending-sent body _ call e in
      let (r, there, later) = bound-ok check_result _ p made in
      let (hr, chosen, ready) =
        bound-ok (target http codecs uris urls network build_error r) _ p later in
      (
        hr,
        there ∙ ap ok (target-matched r hr chosen),
        subst (IsAsked hr) same (prepared-IsAsked hr p ready),
      )

  module _ (engine : RegexEngine) (crypto : Crypto) (nets : IpNets) (float : Float)
      (first_key : List (String × ℤ) → Option String) (poison_error : String) (pick : ℕ → ℕ)
      (join : String → String → String) where
    -- If a gRPC request makes the proxy send a call, then the choice of the request's destination
    -- admitted it and came to a target, and the call goes with POST to the target's URL, over TLS
    -- exactly if the target's path contains "https". `Url::port` gives the URL a port. So a request
    -- that is denied, that no route matches or to whose target `Url::port` gives no port sends
    -- nothing.
    pub request_outbound-sent :
        (now : ℕ → Reading) (port : ℤ) (inbound : Inbound http codecs)
        (shared : Shared engine float) (call : Call http uris network.Addr)
        → (request_outbound http codecs uris urls network build_error engine crypto nets float
            first_key poison_error pick join now port inbound shared).1.sent
          ≡ some call
        → (hr : HandlingResult) × ((get_destination http engine crypto nets float first_key
              poison_error pick join now inbound.path_and_query inbound.method inbound.ip
              inbound.headers port shared).1
            ≡ ok (matched hr))
          × IsAsked hr call
    unfolding request_outbound
    request_outbound-sent now port inbound shared call e = outbound-IsAsked inbound.body _ call e
