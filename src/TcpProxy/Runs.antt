-- ===== src/TcpProxy/Runs.antt =====
-- When a listener of TCP ends.
use silverwind.Prelude.{
  String, ◌≡◌, refl, ap, Bool, true, false, Option, none, some, List, [], ◌∷◌, ◌++◌, ℤ, Outcome, ok,
  err, panic, string_eq,
}
use silverwind.External.{Http, RegexEngine, IpNets, Float}
use silverwind.Authentication.{Crypto}
use silverwind.Middleware.{Store}
use silverwind.TcpProxy.{
  Inbound, Event, accepted, not_accepted, closed, Served, check, answered, refused, start_proxy,
  ended, transferred,
}

module _ (http : Http) (engine : RegexEngine) (crypto : Crypto) (nets : IpNets) (float : Float)
    (first_key : List (String × ℤ) → Option String) (poison_error : String) (mapping_key : String)
    (port : ℤ) where
  -- A run that ended with the error of a connection's check, after what was served before.
  abbrev pub stopped : Inbound engine → Served float → String → Served float
  stopped c before e = record {
    store =
        (check http engine crypto nets float first_key poison_error mapping_key port c
          before.store).0;
    targets = before.targets;
    result = some (err e);
  }

  abbrev Fails : Inbound engine → Served float → String → Type 0
  Fails c before e =
      (check http engine crypto nets float first_key poison_error mapping_key port c before.store).1
      ≡ err e

  refused-stopped :
      (c : Inbound engine) (e : String) (shutdown : Option String) (store : Store float)
      (rest rest' : Served float)
      → (rest.result ≡ none → Fails c rest e → rest' ≡ stopped c rest e)
      → let serve =
          refused http engine crypto nets float first_key poison_error mapping_key port shutdown
            store in
        (serve rest).result ≡ none → Fails c (serve rest) e → serve rest' ≡ stopped c (serve rest) e
  unfolding refused ended
  refused-stopped c e none store rest rest' h r f = h r f
  refused-stopped c e (some m) store rest rest' h r f = cc

  answered-stopped :
      (c d : Inbound engine) (e : String) (store : Store float) (answer : Outcome Bool)
      (rest rest' : Served float)
      → (rest.result ≡ none → Fails c rest e → rest' ≡ stopped c rest e)
      → let serve =
          answered http engine crypto nets float first_key poison_error mapping_key port d store
            answer in
        (serve rest).result ≡ none → Fails c (serve rest) e → serve rest' ≡ stopped c (serve rest) e
  unfolding answered ended transferred
  answered-stopped c d e store (ok true) rest rest' h r f =
      ap (transferred http engine crypto nets float first_key poison_error mapping_key port _)
        (h r f)
  answered-stopped c d e store (ok false) rest rest' h r f =
      refused-stopped c e d.shutdown_error store rest rest' h r f
  answered-stopped c d e store (err m) rest rest' h r f = cc
  answered-stopped c d e store panic rest rest' h r f = cc

  -- When the check of a connection ends in an error, the listener ends with that error, so that no
  -- later connection is served, whatever its own check would say.
  pub start_proxy-stops :
      (events later : List (Event engine)) (c : Inbound engine) (store : Store float) (e : String)
      → let before =
          start_proxy http engine crypto nets float first_key poison_error mapping_key port events
            store in
        before.result ≡ none
        → (check http engine crypto nets float first_key poison_error mapping_key port c
            before.store).1
          ≡ err e
        → start_proxy http engine crypto nets float first_key poison_error mapping_key port
            (events ++ accepted c ∷ later)
            store
          ≡ stopped c before e
  unfolding start_proxy answered ended
  start_proxy-stops [] later c store e r f = rw (f, answered) refl
  start_proxy-stops (accepted d ∷ events) later c store e r f =
      answered-stopped c d e _ _ _ _ (start_proxy-stops events later c _ e) r f
  start_proxy-stops (not_accepted ∷ events) later c store e r f =
      start_proxy-stops events later c store e r f
  start_proxy-stops (closed ∷ events) later c store e r f = cc
