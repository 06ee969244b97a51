-- ===== src/Websocket.antt =====
-- rust-proxy/src/proxy/http1/websocket_proxy.rs: the upgrade of a connection. The copying between the
-- two connections, which goes on after the answer, is left out.
pub mod Sent
use silverwind.Prelude.{
  ℕ, zero, suc, ◌+◌, ◌-◌, ◌*◌, ◌/◌, ◌%◌, ◌^◌, ◌≤◌, ◌<◌, String, ◌≡◌, refl, sym, ap, ◌∙◌, ◌≢◌, ◌↔◌,
  ◌⊎◌, inl, inr, Bool, true, false, not, ◌&&◌, ◌||◌, Option, none, some, List, [], ◌∷◌, ◌++◌, map,
  arith, eq_iff, eq_refl, ltb, leb, str_eq, ◌==◌, if◌then◌else◌, Bool-cases, Option-cases, lt→ltb,
  le→ltb, le→leb, lt→leb, length, get_elem?, is_empty, any, all, select, replicate, length-append,
  get_elem?_lt, All, All-get_elem?, All-select, select-holds, ℤ, pos, negsuc, to_u32, as_i32,
  add_i32, sub_i32, lt_ℤ, le_ℤ, min_ℤ, add_i32_pos, sub_i32_pos, as_i32_pos, Outcome, ok, err,
  panic, ◌>>=◌, ok_or, Outcome-cases, Done, or_else, and_then, map_err, Eq, string_eq, ◌⧺◌,
  contains_char, strip_prefix, is_some, starts_with, split, decimal, join, ends_with, contains_str,
}
use silverwind.Errors.{from, Cause}
use silverwind.External.{Http, Codecs, Uris}
use silverwind.Response.{Response}
use silverwind.Upstream.{to_server, Request, Call, Servers, Exchange, contains_key, received}

module _ (http : Http) (codecs : Codecs) (uris : Uris) (servers : Servers http codecs uris) where
  -- The request as it goes to the upstream server: without a body.
  upgrade_request : Request http codecs uris → uris.Uri → Request http codecs uris
  upgrade_request req uri = record {
    method = req.method;
    uri = uri;
    headers = req.headers;
    body = ok codecs.empty;
  }

  upgrade_call : Request http codecs uris → uris.Uri → Call http codecs uris
  unfolding upgrade_request
  upgrade_call req uri = record {
    https = starts_with (uris.text uri) "https";
    timeout = 5000;
    request = upgrade_request req uri;
  }

  -- An answer other than 101 is the client's answer; of 101 the headers are.
  accepted : Response http codecs → Response http codecs
  accepted r =
      if r.status == 101
      then record { status = 101; headers = r.headers; body = ok codecs.empty }
      else r

  upgraded :
      String
      → Call http codecs uris
      → Option (Outcome (Response http codecs))
      → Exchange http codecs uris
  unfolding accepted received
  upgraded request_path call none = record {
    sent = some (to_server call);
    response = err ("Request to upstream timed out, uri is " ⧺ request_path);
  }
  upgraded request_path call (some response) = record {
    sent = some (to_server call);
    response = received http codecs uris response >>= λ r. ok (accepted r);
  }

  forward : Request http codecs uris → String → Option uris.Uri → Exchange http codecs uris
  unfolding upgraded upgrade_call
  forward req request_path none = record {
    sent = none;
    response = err (from Cause.http_message (uris.parse_error request_path));
  }
  forward req request_path (some uri) =
      let call = upgrade_call req uri in upgraded request_path call (servers.answer call)

  unfoldable pub server_upgrade : Request http codecs uris → String → Exchange http codecs uris
  unfolding forward contains_key
  server_upgrade req request_path =
      if contains_key http codecs uris req.headers "upgrade"
      then forward req request_path (uris.parse request_path)
      else record {
        sent = none;
        response = ok (record { status = 400; headers = http.empty; body = ok codecs.empty });
      }
