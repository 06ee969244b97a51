-- ===== src/Destination/Panics.antt =====
-- What a panic in the handling of one request does to the requests after it.
use silverwind.Prelude.{
  ℕ, String, ◌≡◌, refl, ap, ◌∙◌, inl, inr, true, Option, some, List, [], ◌∷◌, Bool-cases, ℤ,
  Outcome, err, panic, string_eq, ◌⧺◌,
}
use silverwind.External.{Http, RegexEngine, IpNets, Float}
use silverwind.Authentication.{Crypto}
use silverwind.Middleware.{Reading, is_panic}
use silverwind.Destination.{Shared, DestinationResult, get_destination}

module _ (http : Http) (engine : RegexEngine) (crypto : Crypto) (nets : IpNets) (float : Float)
    (first_key : List (String × ℤ) → Option String) (poison_error : String) (pick : ℕ → ℕ)
    (join : String → String → String) where
  -- A request as the listener hands it over.
  pub record Incoming : Type 0 where
    pub now : ℕ → Reading
    pub target : String
    pub verb : String
    pub ip : String
    pub headers : http.HeaderMap
    pub port : ℤ

  unfoldable pub serve :
      Incoming → Shared engine float → Shared engine float × Outcome (DestinationResult http)
  unfolding get_destination
  serve r shared =
      get_destination http engine crypto nets float first_key poison_error pick join r.now
        (some r.target) r.verb r.ip r.headers r.port shared

  pub serve_all : List Incoming → Shared engine float → Shared engine float
  unfolding serve
  serve_all [] shared = shared
  serve_all (r ∷ rs) shared = serve_all rs (serve r shared).0

  poisoned_serve :
      (r : Incoming) (shared : Shared engine float)
      → shared.shared_data.poisoned ≡ true
      → serve r shared ≡ (shared, err ("Mutex error: " ⧺ poison_error))
  unfolding serve get_destination
  poisoned_serve r shared h = rw h refl

  poisoned_serve_all :
      (rs : List Incoming) (shared : Shared engine float)
      → shared.shared_data.poisoned ≡ true
      → serve_all rs shared ≡ shared
  unfolding serve_all
  poisoned_serve_all [] shared h = refl
  poisoned_serve_all (r ∷ rs) shared h =
      ap (λ x. serve_all rs x.0) (poisoned_serve r shared h) ∙ poisoned_serve_all rs shared h

  panic_poisons :
      (r : Incoming) (shared : Shared engine float)
      → (serve r shared).1 ≡ panic
      → (serve r shared).0.shared_data.poisoned ≡ true
  unfolding serve get_destination
  panic_poisons r shared h = elim (Bool-cases shared.shared_data.poisoned) [
    | inl bad ↦ rw bad refl
    | inr good ↦ rw good (ap is_panic (rw good at h))
  ]

  -- When the choice of a destination panics for one request, every request after it, on any port,
  -- fails with the error of the configuration's poisoned lock, and changes nothing.
  panic_stops_all :
      (r q : Incoming) (rs : List Incoming) (shared : Shared engine float)
      → (serve r shared).1 ≡ panic
      → serve q (serve_all rs (serve r shared).0)
        ≡ ((serve r shared).0, err ("Mutex error: " ⧺ poison_error))
  panic_stops_all r q rs shared h =
      ap (serve q) (poisoned_serve_all rs (serve r shared).0 (panic_poisons r shared h))
      ∙ poisoned_serve q (serve r shared).0 (panic_poisons r shared h)
