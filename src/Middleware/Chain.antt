-- ===== src/Middleware/Chain.antt =====
-- The pass of checks over a list of middlewares.
use silverwind.Prelude.{
  ℕ, suc, String, ◌≡◌, refl, ◌∙◌, ◌≢◌, Option, List, [], ◌∷◌, ◌++◌, ℤ, Outcome, ok, err, panic,
  string_eq,
}
use silverwind.External.{Http, IpNets, Float}
use silverwind.Denial.{CheckResult, allowed, denied}
use silverwind.Authentication.{Crypto}
use silverwind.Middleware.{MiddleWares, Store, Reading, check_request, check_all, next}

module _ (http : Http) (crypto : Crypto) (nets : IpNets) (float : Float)
    (first_key : List (String × ℤ) → Option String) (poison_error : String) (ip : String)
    (m : Option http.HeaderMap) where
  abbrev check :
      (ℕ → Reading) → Store float → MiddleWares → Store float × Outcome (CheckResult http)
  check now s mw = check_request http crypto nets float first_key poison_error (now 0) ip m s mw

  -- Every middleware of the list admits the request, in the stores that the ones before it leave,
  -- and the last one leaves the second store.
  pub data AreAllowed : (ℕ → Reading) → List MiddleWares → Store float → Store float → Type 0 where
    nobody : {now : ℕ → Reading} {s : Store float} → AreAllowed now [] s s
    another :
        {now : ℕ → Reading} {mw : MiddleWares} {mws : List MiddleWares} {s s' s'' : Store float}
        → check now s mw ≡ (s', ok allowed)
        → AreAllowed (λ i. now (suc i)) mws s' s''
        → AreAllowed now (mw ∷ mws) s s''

  abbrev pass :
      (ℕ → Reading) → List MiddleWares → Store float → Store float × Outcome (CheckResult http)
  pass now mws s = check_all http crypto nets float first_key poison_error now ip m mws s

  -- The readings that are left after a list's checks.
  abbrev pub later : List MiddleWares → (ℕ → Reading) → ℕ → Reading
  later [] now = now
  later (mw ∷ mws) now = later mws (λ i. now (suc i))

  next_allowed :
      (s : Store float) (o : Store float × Outcome (CheckResult http))
      (rest : Store float → Store float × Outcome (CheckResult http))
      → o ≡ (s, ok allowed)
      → next http crypto nets float first_key poison_error o rest ≡ rest s
  unfolding next
  next_allowed s o rest e = rw e refl

  pass_on :
      {now : ℕ → Reading} {before : List MiddleWares} (after : List MiddleWares)
      {s s' : Store float}
      → AreAllowed now before s s'
      → pass now (before ++ after) s ≡ pass (later before now) after s'
  unfolding check_all
  pass_on after nobody = refl
  pass_on after (another {now = now} {mw = mw} {mws = mws} {s = s} {s' = s'} e h) =
      next_allowed s' (check now s mw) (pass (λ i. now (suc i)) (mws ++ after)) e ∙ pass_on after h

  pass_alone :
      {now : ℕ → Reading} {before : List MiddleWares} {s s' : Store float}
      → AreAllowed now before s s'
      → pass now before s ≡ (s', ok allowed)
  unfolding check_all
  pass_alone nobody = refl
  pass_alone (another {now = now} {mw = mw} {mws = mws} {s = s} {s' = s'} e h) =
      next_allowed s' (check now s mw) (pass (λ i. now (suc i)) mws) e ∙ pass_alone h

  next_stops :
      (o : Store float × Outcome (CheckResult http))
      (rest : Store float → Store float × Outcome (CheckResult http))
      → o.1 ≢ ok allowed
      → next http crypto nets float first_key poison_error o rest ≡ o
  unfolding next
  next_stops (s, ok allowed) rest h = absurd (h refl)
  next_stops (s, ok (denied d)) rest h = refl
  next_stops (s, err e) rest h = refl
  next_stops (s, panic) rest h = refl

  -- After middlewares that admit the request, the first that does not decides alone: its answer,
  -- be it a denial, an error or a panic, is that of the pass, in the store that it leaves, so that
  -- no later middleware counts the request. If there is none, the request is admitted.
  pub check_all-first_refusal :
      (now : ℕ → Reading) (before after : List MiddleWares) (mw : MiddleWares) (s s' : Store float)
      → AreAllowed now before s s'
      → (check_all http crypto nets float first_key poison_error now ip m before s
          ≡ (s', ok allowed))
        × ((check (later before now) s' mw).1 ≢ ok allowed
            → check_all http crypto nets float first_key poison_error now ip m
                (before ++ mw ∷ after)
                s
              ≡ check (later before now) s' mw)
  check_all-first_refusal now before after mw s s' h = (
    pass_alone h,
    λ refused.
        pass_on (mw ∷ after) h
        ∙ unfold check_all in
          next_stops (check (later before now) s' mw) (pass (λ i. later before now (suc i)) after)
            refused,
  )
