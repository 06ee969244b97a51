-- ===== src/Middleware/Responses.antt =====
-- rust-proxy/src/middleware/middlewares.rs and `handle_before_response` of proxy/proxy_trait.rs: the
-- outcome of a request goes to every middleware, and a response that came is changed by each.
use silverwind.Prelude.{
  ℕ, suc, String, List, [], ◌∷◌, Outcome, ok, ◌>>=◌, Done, and_then, string_eq,
}
use silverwind.External.{Http, Codecs, Float}
use silverwind.Response.{Response}
use silverwind.Cors
use silverwind.StaticHeaders
use silverwind.Compression
use silverwind.Middleware.{MiddleWares, cors, headers, compression, Store, record_all}

module _ (http : Http) (codecs : Codecs) (http_date : ℕ → ℕ → Outcome String) where
  with_headers :
      Response http codecs → http.HeaderMap × Outcome Done → Response http codecs × Outcome Done
  with_headers r (m, answer) = (record r { headers = m }, answer)

  unfoldable pub handle_response :
      (ℕ → ℕ)
      → String
      → http.HeaderMap
      → MiddleWares
      → Response http codecs
      → Response http codecs × Outcome Done
  unfolding with_headers
  handle_response now path inbound (cors c) r =
      with_headers r (Cors.handle_before_response http c r.headers)
  handle_response now path inbound (headers c) r =
      with_headers r (StaticHeaders.handle_before_response http http_date now c path r.headers)
  handle_response now path inbound (compression c) r =
      Compression.handle_response http codecs c r inbound
  handle_response now path inbound _ r = (r, ok tt)

  -- The second loop, for a response that came.
  unfoldable pub handle_responses :
      (ℕ → ℕ → ℕ)
      → String
      → http.HeaderMap
      → List MiddleWares
      → Response http codecs
      → Response http codecs × Outcome Done
  unfolding handle_response
  handle_responses now path inbound [] r = (r, ok tt)
  handle_responses now path inbound (mw ∷ mws) r =
      and_then (handle_response (now 0) path inbound mw r)
        (handle_responses (λ i. now (suc i)) path inbound mws)

  on_response :
      (ℕ → ℕ → ℕ)
      → String
      → http.HeaderMap
      → List MiddleWares
      → Outcome (Response http codecs)
      → Outcome (Response http codecs) × Outcome Done
  unfolding handle_responses
  on_response now path inbound mws (ok r) =
      let (r', answer) = handle_responses now path inbound mws r in (ok r', answer)
  on_response now path inbound mws failed = (failed, ok tt)

  abbrev pub status_of : Outcome (Response http codecs) → Outcome ℕ
  status_of response = response >>= λ r. ok r.status

  -- The readings of the clock for the outcomes and for the responses; the code passes the response
  -- by reference, so it comes back beside the answer of the call.
  unfoldable pub handle_before_response :
      (float : Float)
      → (ℕ → ℕ)
      → (ℕ → ℕ → ℕ)
      → String
      → http.HeaderMap
      → List MiddleWares
      → Outcome (Response http codecs)
      → Store float
      → Store float × Outcome (Response http codecs) × Outcome Done
  unfolding on_response record_all
  handle_before_response float now then_now path inbound mws response s =
      let (response', answer) = on_response then_now path inbound mws response in
      (record_all float now (status_of response) mws s, response', answer)
