-- ===== src/Headers/Changed.antt =====
-- The headers of a request after the configured names are removed and the configured ones added.
use silverwind.Prelude.{
  or_else, String, ◌≡◌, refl, ap, ◌∙◌, inl, inr, Bool, true, false, ◌&&◌, ◌||◌, Option, none, some,
  List, [], ◌∷◌, if◌then◌else◌, Bool-cases, any, All, ok, string_eq,
}
use silverwind.External.{Http, same_name}
use silverwind.Headers.{RequestHeaders, remove_all, add_all, handle_request}

module _ (http : Http) where
  -- The value that the entries give a name: the last one of that name, in any case of letters.
  pub added : List (String × String) → String → Option http.HeaderValue
  added [] k = none
  added ((n, s) ∷ entries) k =
      or_else (added entries k) (if same_name n k then http.of_str s else none)

  -- The legal names among the removed ones.
  pub removed : List String → String → Bool
  removed names k = any (λ n. http.valid_name n && same_name n k) names

  -- What a request's header is in the end.
  pub final : RequestHeaders → http.HeaderMap → String → Option http.HeaderValue
  final config m k =
      or_else (added config.add k) (if removed config.remove k then none else http.get m k)

  abbrev pub IsEntry : String × String → Type 0
  IsEntry (n, s) = (http.valid_name n ≡ true) × ((v : http.HeaderValue) × (http.of_str s ≡ some v))

  get-remove_all :
      (names : List String) (m : http.HeaderMap) (k : String)
      → http.get (remove_all http names m) k ≡ (if removed names k then none else http.get m k)
  unfolding remove_all removed
  get-remove_all [] m k = refl
  get-remove_all (n ∷ names) m k = elim (Bool-cases (http.valid_name n)) [
    | inl legal ↦ rw legal (
        get-remove_all names (http.remove m n) k
        ∙ rw (http.get-remove m n k) (merged (same_name n k) (removed names k) (http.get m k)))
    | inr bad ↦ rw bad (get-remove_all names m k)
  ]
    where
      merged :
          (a b : Bool) (g : Option http.HeaderValue)
          → (if b then none else (if a then none else g)) ≡ (if a || b then none else g)
      merged true true g = refl
      merged true false g = refl
      merged false b g = refl

  get-add_all :
      (entries : List (String × String)) (m : http.HeaderMap) (k : String)
      → All IsEntry entries
      → (http.get (add_all http entries m).0 k ≡ or_else (added entries k) (http.get m k))
        × ((add_all http entries m).1 ≡ ok tt)
  unfolding add_all added
  get-add_all [] m k h = (refl, refl)
  get-add_all ((n, s) ∷ entries) m k ((legal, (v, value)), h) =
      let rest = get-add_all entries (http.insert m n v) k h in
      rw (legal, add_all)
        (rw (value, add_all)
          (
            rest.0
                ∙ rw (http.get-insert m n k v legal) (merged (added entries k) (same_name n k) v),
            rest.1,
          ))
    where
      merged :
          (a : Option http.HeaderValue) (b : Bool) (v : http.HeaderValue)
          → or_else a (if b then some v else http.get m k)
            ≡ or_else (or_else a (if b then some v else none)) (http.get m k)
      merged none true v = refl
      merged none false v = refl
      merged (some w) b v = refl

  -- When every entry to add has a legal name and a legal value, the call succeeds, and each header
  -- is then what the last entry of its name says; without such an entry it is gone if a legal name
  -- among those to remove is its name, and else it is as before. Names ignore the case of letters.
  pub handle_request-final :
      (config : RequestHeaders) (m : http.HeaderMap) (k : String)
      → All IsEntry config.add
      → (http.get (handle_request http config m).0 k ≡ final config m k)
        × ((handle_request http config m).1 ≡ ok tt)
  unfolding handle_request final
  handle_request-final config m k h =
      let (got, done) = get-add_all config.add (remove_all http config.remove m) k h in
      (got ∙ ap (λ g. or_else (added config.add k) g) (get-remove_all config.remove m k), done)
