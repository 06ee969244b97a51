-- ===== src/Headers/Forwarded.antt =====
-- The two headers that tell the upstream server the client's address.
use silverwind.Prelude.{
  String, ◌≡◌, refl, sym, ◌∙◌, false, Option, none, some, if◌then◌else◌, ok, string_eq, ◌⧺◌,
}
use silverwind.External.{Http, same_name}
use silverwind.Headers.{value_of, set, chained, forward, handle_before_request}

module _ (http : Http) (client_ip : String) (v : http.HeaderValue) (m : http.HeaderMap) where
  -- The text of the list of addresses: the client's, after those that the request came with.
  abbrev pub Chain : Option http.HeaderValue → String → Type 0
  Chain none text = text ≡ client_ip
  Chain (some old) text = (s : String) × (http.to_str old ≡ some s) × (text ≡ s ⧺ ", " ⧺ client_ip)

  not_real_ip :
      http.get (http.insert m "X-Real-IP" v) "X-Forwarded-For" ≡ http.get m "X-Forwarded-For"
  unfolding same_name
  not_real_ip = http.get-insert m "X-Real-IP" "X-Forwarded-For" v http.known.1.1.1.1.0

  chained-Chain :
      (old : Option http.HeaderValue) (text : String) (w : http.HeaderValue)
      → Chain old text
      → http.of_str text ≡ some w
      → chained http old client_ip ≡ ok w
  unfolding chained value_of
  chained-Chain none text w chain legal = rw (sym chain, legal) refl
  chained-Chain (some old) text w (s, shown, chain) legal = rw (shown, sym chain, legal) refl

  twice :
      (w : http.HeaderValue) (k : String)
      → http.get (http.insert (http.insert m "X-Real-IP" v) "X-Forwarded-For" w) k ≡ (
          if same_name "X-Forwarded-For" k
          then some w
          else (if same_name "X-Real-IP" k then some v else http.get m k))
  twice w k =
      http.get-insert (http.insert m "X-Real-IP" v) "X-Forwarded-For" k w http.known.1.1.1.1.1.0
      ∙ rw (http.get-insert m "X-Real-IP" k v http.known.1.1.1.1.0) refl

  -- When the client's address is a legal value, and so is the list of addresses that it ends, the
  -- call succeeds: X-Real-IP is the client's address, X-Forwarded-For is the list that the
  -- request came with, if any, with the client's address at its end, and no other header changes.
  pub handle_before_request-forwards :
      (text : String) (w : http.HeaderValue)
      → http.of_str client_ip ≡ some v
      → Chain (http.get m "X-Forwarded-For") text
      → http.of_str text ≡ some w
      → let after = handle_before_request http client_ip m in
        (after.1 ≡ ok tt)
        × (http.get after.0 "X-Real-IP" ≡ some v)
        × (http.get after.0 "X-Forwarded-For" ≡ some w)
        × ((k : String)
            → same_name "X-Real-IP" k ≡ false
            → same_name "X-Forwarded-For" k ≡ false
            → http.get after.0 k ≡ http.get m k)
  unfolding handle_before_request forward set value_of same_name
  handle_before_request-forwards text w address chain legal =
      rw (address, forward)
        (rw not_real_ip (
          rw (chained-Chain (http.get m "X-Forwarded-For") text w chain legal, set)
            (
              refl,
              twice w "X-Real-IP",
              twice w "X-Forwarded-For",
              λ k a b. twice w k ∙ rw (b, a) refl,
            )))
