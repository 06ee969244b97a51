-- ===== src/Websocket/Sent.antt =====
-- What an upgrade sends to the upstream server.
use silverwind.Prelude.{
  String, ◌≡◌, refl, sym, ◌∙◌, inl, inr, Option, none, some, Bool-cases, Outcome, some-inj,
  none≢some, string_eq,
}
use silverwind.External.{Http, Codecs, Uris}
use silverwind.Response.{Response}
use mathlib.Core.Path.{subst}
use silverwind.Upstream.{Sent, to_server, to_grpc, Request, Call, Servers, Exchange, contains_key}
use silverwind.Websocket.{server_upgrade, forward, upgraded, upgrade_call, upgrade_request}

module _ (http : Http) (codecs : Codecs) (uris : Uris) (servers : Servers http codecs uris) where
  -- The call goes to the path, with the request's method and no body.
  abbrev pub IsUpgrade : Request http codecs uris → String → Call http codecs uris → Type 0
  IsUpgrade req request_path call =
      (uris.parse request_path ≡ some call.request.uri)
      × (call.request.method ≡ req.method)
      × (call.timeout ≡ 5000)

  abbrev pub IsUpgraded : Request http codecs uris → String → Sent http codecs uris → Type 0
  IsUpgraded req request_path (to_server call) = IsUpgrade req request_path call
  IsUpgraded req request_path (to_grpc call) = ⊥

  abbrev Upgrades : Request http codecs uris → String → Exchange http codecs uris → Type 0
  Upgrades req request_path x =
      (call : Sent http codecs uris) → x.sent ≡ some call → IsUpgraded req request_path call

  upgraded-sent :
      (request_path : String) (call : Call http codecs uris)
      (answer : Option (Outcome (Response http codecs)))
      → (upgraded http codecs uris servers request_path call answer).sent ≡ some (to_server call)
  unfolding upgraded
  upgraded-sent request_path call none = refl
  upgraded-sent request_path call (some r) = refl

  forward-Upgrades :
      (req : Request http codecs uris) (request_path : String) (uri : Option uris.Uri)
      → uris.parse request_path ≡ uri
      → Upgrades req request_path (forward http codecs uris servers req request_path uri)
  unfolding forward upgrade_call upgrade_request
  forward-Upgrades req request_path none e call s = cc
  forward-Upgrades req request_path (some uri) e call s =
      subst (IsUpgraded req request_path) (some-inj (sym (upgraded-sent request_path _ _) ∙ s))
        (e, refl, refl)

  pub server_upgrade-Upgrades :
      (req : Request http codecs uris) (request_path : String) (call : Sent http codecs uris)
      → (server_upgrade http codecs uris servers req request_path).sent ≡ some call
      → IsUpgraded req request_path call
  unfolding server_upgrade
  server_upgrade-Upgrades req request_path call s =
      elim (Bool-cases (contains_key http codecs uris req.headers "upgrade")) [
        | inl yes_ ↦
            forward-Upgrades req request_path (uris.parse request_path) refl call (rw yes_ at s)
        | inr no_ ↦ absurd (none≢some (rw no_ at s))
      ]
