-- ===== src/RateLimit/FixedWindow/Eviction.antt =====
-- What dropping a counter does when the map is full.
use silverwind.Prelude.{
  ℕ, suc, ◌≤◌, ◌<◌, String, ◌≡◌, refl, ap, ◌⊎◌, inl, inr, true, false, Option, none, some, List, [],
  ◌∷◌, arith, eq_refl, leb, str_eq, Bool-cases, Option-cases, length, All, ℤ, pos, add_i32,
  add_i32_pos, ok, Outcome-cases, string_eq,
}
use silverwind.Prelude.Assoc.{
  lookup, insert, remove, length-insert_new, length-insert_old, length-remove_lt,
}
use silverwind.External.{Http, IpNets}
use silverwind.RateLimit.Scope.{matched}
use silverwind.RateLimit.FixedWindow.{
  FixedWindowRateLimit, Clock, counter_key, counter, evict, should_limit, map_size,
}
use silverwind.RateLimit.FixedWindow.Counting.{limiter, run, remaining}

length-insert :
    (key : String) (v : ℤ) (m : List (String × ℤ)) → length (insert key v m) ≤ suc (length m)
length-insert key v m = elim (Option-cases (lookup key m)) [
  | inl new ↦ rw (length-insert_new key v m new) (omega arith)
  | inr (w, old) ↦ rw (length-insert_old key v w m old) (omega arith)
]

-- `keys().next()` gives a key of the map, and none only of the empty one.
abbrev pub IsFirstKey : (List (String × ℤ) → Option String) → Type 0
IsFirstKey first_key =
    (m : List (String × ℤ))
    → ((m ≡ []) × (first_key m ≡ none))
      ⊎ ((key : String) × (v : ℤ) × (first_key m ≡ some key) × (lookup key m ≡ some v))

length-evict :
    (first_key : List (String × ℤ) → Option String) (m : List (String × ℤ))
    → IsFirstKey first_key
    → length m ≤ 3
    → length (evict first_key m) ≤ 2
unfolding evict
length-evict first_key m is_key h = elim (Bool-cases (leb map_size (length m))) [
  | inl full ↦ elim (is_key m) [
    | inl (empty, _) ↦ let none_in : length m ≡ 0 = ap length empty in absurd (ground arith)
    | inr (key, v, first, found) ↦
        rw (full, evict) (rw first (omega (arith, length-remove_lt key v m found)))
  ]
  | inr room ↦ rw (room, evict) (ground arith)
]

module _ (http : Http) (nets : IpNets) (first_key : List (String × ℤ) → Option String)
    (headers : http.HeaderMap) (remote_ip : String) where
  length-should_limit :
      (clock : Clock) (fw : FixedWindowRateLimit)
      → IsFirstKey first_key
      → length fw.count_map ≤ 3
      → length (should_limit http nets first_key clock headers remote_ip fw).0.count_map ≤ 3
  unfolding should_limit
  length-should_limit clock fw is_key h =
      elim (Outcome-cases (matched http nets fw.scope headers remote_ip)) [
        | inl (true, e) ↦ rw e (
            omega (
              arith,
              length-insert (counter_key fw clock.first)
                  (add_i32 (counter (counter_key fw clock.first) (evict first_key fw.count_map))
                    (pos 1))
                  (evict first_key fw.count_map),
              length-evict first_key fw.count_map is_key h,
            ))
        | inl (false, e) ↦ rw e h
        | inr (inl (e, p)) ↦ rw p h
        | inr (inr p) ↦ rw p h
      ]

  -- A limiter never holds more than three counters, whatever the requests and their clock
  -- readings, if it starts with no more and `keys().next()` gives a key of the map.
  map_bounded :
      (clocks : List Clock) (fw : FixedWindowRateLimit)
      → IsFirstKey first_key
      → length fw.count_map ≤ 3
      → length (run http nets first_key headers remote_ip clocks fw).0.count_map ≤ 3
  unfolding run
  map_bounded [] fw is_key h = h
  map_bounded (clock ∷ clocks) fw is_key h =
      map_bounded clocks (should_limit http nets first_key clock headers remote_ip fw).0 is_key
        (length-should_limit clock fw is_key h)

  module _ (fw : FixedWindowRateLimit)
      (in_scope : matched http nets fw.scope headers remote_ip ≡ ok true) (r : ℕ)
      (rate : fw.rate_per_unit ≡ pos (suc r)) (small : suc r < 2147483648) (key a b : String)
      (i j : ℤ) (ne_a : str_eq a key ≡ false) (ne_b : str_eq b key ≡ false) where
    -- The counters of two other keys, and a full map, with the current key's.
    abbrev others : List (String × ℤ)
    others = (a, i) ∷ (b, j) ∷ []

    abbrev full : ℤ → List (String × ℤ)
    full n = (a, i) ∷ (b, j) ∷ (key, n) ∷ []

    evict-full : (n : ℤ) → first_key (full n) ≡ some key → evict first_key (full n) ≡ others
    unfolding evict remove
    evict-full n first = rw first (rw (ne_a, ne_b, eq_refl key))

    counter-others : counter key others ≡ pos 0
    unfolding counter lookup
    counter-others = rw (ne_a, ne_b, counter)

    insert-others : (v : ℤ) → insert key v others ≡ full v
    unfolding insert
    insert-others v = rw (ne_a, ne_b)

    forgets :
        (clock : Clock) (n : ℤ)
        → counter_key fw clock.first ≡ key
        → first_key (full n) ≡ some key
        → let (fw', answer) =
            should_limit http nets first_key clock headers remote_ip (limiter fw (full n)) in
          (fw' ≡ limiter fw (full (pos 1))) × (answer ≡ ok none)
    unfolding should_limit counter_key
    forgets clock n same first = rw in_scope (
        rw (evict-full n first) (
          rw same (
            rw counter-others (
              rw (add_i32_pos 0 1 (omega arith)) (
                rw (insert-others (pos 1))
                  (rw rate (rw (remaining (suc r) 1 small (omega arith)) (refl, ground arith))))))))

    -- With two counters of other keys in the map beside the current key's, and an order of
    -- iteration in which the current key comes first, every request of the window passes, however
    -- many there are and whatever the positive rate is: each one drops the counter, and is counted
    -- as the first.
    pub limit_bypassed :
        (clocks : List Clock) (n : ℤ)
        → All (λ clock. counter_key fw clock.first ≡ key) clocks
        → ((v : ℤ) → first_key (full v) ≡ some key)
        → (run http nets first_key headers remote_ip clocks (limiter fw (full n))).1 ≡ length clocks
    unfolding run
    limit_bypassed [] n same first = refl
    limit_bypassed (clock ∷ clocks) n (here, rest) first =
        let (state, answer) = forgets clock n here (first n) in
        rw (state, answer) (omega (arith, limit_bypassed clocks (pos 1) rest first))
