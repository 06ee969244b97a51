-- ===== src/Grpc/Answered.antt =====
-- What a client of the gRPC proxy gets.
use silverwind.Prelude.{
  ℕ, String, ◌≡◌, refl, sym, ap, ◌∙◌, Bool, Option, none, some, List, ℤ, Outcome, ok, err, panic,
  some-inj, none≢some, string_eq,
}
use silverwind.External.{Http, Codecs, Uris, Urls, RegexEngine, IpNets, Float}
use silverwind.Authentication.{Crypto}
use silverwind.Middleware.{Reading}
use silverwind.Destination.{DestinationResult, Shared}
use silverwind.Grpc.{
  Call, Network, Inbound, Trip, Head, Prepared, unsent, responded, answered, called, sending,
  outbound, request_outbound, is_grpc_status_ok,
}
use silverwind.Grpc.Streams.{RecvStream, SendStream}

module _ (http : Http) (codecs : Codecs) (uris : Uris) (urls : Urls)
    (network : Network http codecs uris) (build_error : String) where
  -- The head is that of the upstream server's answer to the call that was sent, and its stream is
  -- ended as the head says.
  abbrev pub IsAnswer : Trip http codecs uris network.Addr → Head http → Bool → Type 0
  IsAnswer trip head ends =
      (call : Call http uris network.Addr) × (body : RecvStream http codecs) × (trip.sent
        ≡ some call)
      × (network.response call trip.frames ≡ ok (head, body))
      × (ends ≡ is_grpc_status_ok http codecs uris urls network build_error head)

  abbrev Answers : Trip http codecs uris network.Addr → Type 0
  Answers trip =
      (head : Head http) (ends : Bool)
      → trip.responded ≡ some (head, ends)
      → IsAnswer trip head ends

  responded-Answers :
      (head : Head http) (body : RecvStream http codecs) (call : Call http uris network.Addr)
      (trip : Trip http codecs uris network.Addr) (s : Outcome (SendStream http codecs))
      → trip.sent ≡ some call
      → trip.responded ≡ none
      → network.response call trip.frames ≡ ok (head, body)
      → Answers (responded http codecs uris urls network build_error head body trip s)
  unfolding responded
  responded-Answers head body call trip (ok s) c n r head' ends e = (
    call,
    body,
    c,
    r ∙ ap (λ (p : Head http × Bool). ok (p.0, body)) (some-inj e),
    sym (ap (λ (p : Head http × Bool). p.1) (some-inj e))
        ∙ ap
            (λ (p : Head http × Bool).
              is_grpc_status_ok http codecs uris urls network build_error p.0)
            (some-inj e),
  )
  responded-Answers head body call trip (err m) c n r head' ends e = absurd (none≢some (sym n ∙ e))
  responded-Answers head body call trip panic c n r head' ends e = absurd (none≢some (sym n ∙ e))

  answered-Answers :
      (call : Call http uris network.Addr) (trip : Trip http codecs uris network.Addr)
      (r : Outcome (Head http × RecvStream http codecs))
      → trip.sent ≡ some call
      → trip.responded ≡ none
      → network.response call trip.frames ≡ r
      → Answers (answered http codecs uris urls network build_error trip r)
  unfolding answered
  answered-Answers call trip (ok (head, body)) c n r head' ends e =
      responded-Answers head body call trip _ c n r head' ends e
  answered-Answers call trip (err m) c n r head ends e = absurd (none≢some (sym n ∙ e))
  answered-Answers call trip panic c n r head ends e = absurd (none≢some (sym n ∙ e))

  called-Answers :
      (body : RecvStream http codecs) (call : Call http uris network.Addr)
      (s : Outcome (SendStream http codecs))
      → Answers (called http codecs uris urls network build_error body call s)
  unfolding called unsent
  called-Answers body call (ok s) head ends e = answered-Answers call _ _ refl refl refl head ends e
  called-Answers body call (err m) head ends e = cc
  called-Answers body call panic head ends e = cc

  sending-Answers :
      (body : RecvStream http codecs)
      (p : Outcome (Prepared http codecs uris urls network build_error))
      → Answers (sending http codecs uris urls network build_error body p)
  unfolding sending unsent
  sending-Answers body (ok (poll, call)) head ends e = called-Answers body call _ head ends e
  sending-Answers body (err m) head ends e = cc
  sending-Answers body panic head ends e = cc

  outbound-Answers :
      (body : RecvStream http codecs) (check_result : Outcome (DestinationResult http))
      → Answers (outbound http codecs uris urls network build_error body check_result)
  unfolding outbound
  outbound-Answers body check_result = sending-Answers body _

  module _ (engine : RegexEngine) (crypto : Crypto) (nets : IpNets) (float : Float)
      (first_key : List (String × ℤ) → Option String) (poison_error : String) (pick : ℕ → ℕ)
      (join : String → String → String) where
    -- A client gets a head only if a call was sent for its request, and then it gets the head of
    -- the upstream server's answer. So a request that is denied or whose
    -- call fails gets no head. The head comes with the mark that ends its stream exactly as
    -- `is_grpc_status_ok` says.
    pub request_outbound-responded :
        (now : ℕ → Reading) (port : ℤ) (inbound : Inbound http codecs)
        (shared : Shared engine float) (head : Head http) (ends : Bool)
        → (request_outbound http codecs uris urls network build_error engine crypto nets float
            first_key poison_error pick join now port inbound shared).1.responded
          ≡ some (head, ends)
        → IsAnswer
            (request_outbound http codecs uris urls network build_error engine crypto nets float
              first_key poison_error pick join now port inbound shared).1
            head
            ends
    unfolding request_outbound
    request_outbound-responded now port inbound shared = outbound-Answers inbound.body _
