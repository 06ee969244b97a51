-- ===== src/RateLimit/FixedWindow/Counting.antt =====
-- Requests of one window, while the map of counters has room.
use silverwind.Prelude.{
  ℕ, suc, ◌+◌, ◌≤◌, ◌<◌, String, ◌≡◌, refl, ◌⊎◌, inl, inr, true, Option, none, some, List, [], ◌∷◌,
  arith, leb, if◌then◌else◌, Option-cases, length, All, ℤ, pos, sub_i32, le_ℤ, add_i32_pos, Outcome,
  ok, string_eq,
}
use silverwind.Prelude.Assoc.{
  lookup, insert, lookup-insert_self, length-insert_new, length-insert_old,
}
use silverwind.External.{Http, IpNets}
use silverwind.RateLimit.Scope.{matched}
use silverwind.RateLimit.FixedWindow.{
  FixedWindowRateLimit, Clock, counter_key, counter, evict, should_limit,
}
use Prim.Native.Nat.{min}
use native.Mathlib.Numerals.{add-one}

-- `rate_per_unit - counter >= 0`, for numbers that are not negative.
pub remaining :
    (r n : ℕ) → r < 2147483648 → n < 2147483648 → le_ℤ (pos 0) (sub_i32 (pos r) (pos n)) ≡ leb n r
unfolding sub_i32
remaining r n h k = ground arith

-- What stays the same between the calls of a run.
abbrev pub limiter : FixedWindowRateLimit → List (String × ℤ) → FixedWindowRateLimit
limiter fw m = record fw { count_map = m }

-- There is room for the key's counter, which stands at `c`.
abbrev pub HasRoom : String → ℕ → List (String × ℤ) → Type 0
HasRoom key c m =
    (counter key m ≡ pos c) × (length m ≤ 2) × ((lookup key m ≡ some (pos c)) ⊎ (length m ≤ 1))

module _ (first_key : List (String × ℤ) → Option String) where
  evict-HasRoom :
      (key : String) (c : ℕ) (m : List (String × ℤ)) → HasRoom key c m → evict first_key m ≡ m
  unfolding evict
  evict-HasRoom key c m h = ground arith

insert-HasRoom :
    (key : String) (c : ℕ) (m : List (String × ℤ))
    → HasRoom key c m
    → HasRoom key (suc c) (insert key (pos (suc c)) m)
unfolding counter
insert-HasRoom key c m (count, small, room) =
    let found = lookup-insert_self key (pos (suc c)) m in
    (rw (found, counter), fits room, inl found)
  where
    fits : (lookup key m ≡ some (pos c)) ⊎ (length m ≤ 1) → length (insert key (pos (suc c)) m) ≤ 2
    fits (inl old) = rw (length-insert_old key (pos (suc c)) (pos c) m old) small
    fits (inr few) = elim (Option-cases (lookup key m)) [
      | inl new ↦ rw (length-insert_new key (pos (suc c)) m new) (omega arith)
      | inr (v, old) ↦ rw (length-insert_old key (pos (suc c)) v m old) small
    ]

module _ (http : Http) (nets : IpNets) (first_key : List (String × ℤ) → Option String)
    (headers : http.HeaderMap) (remote_ip : String) where
  abbrev pub passed : Outcome (Option http.HeaderMap) → ℕ
  passed (ok none) = 1
  passed _ = 0

  -- Requests of one client, by their clock readings, and how many of them pass.
  unfoldable pub run : List Clock → FixedWindowRateLimit → FixedWindowRateLimit × ℕ
  run [] fw = (fw, 0)
  run (clock ∷ clocks) fw =
      let (fw', answer) = should_limit http nets first_key clock headers remote_ip fw in
      let (fw'', n) = run clocks fw' in (fw'', passed answer + n)

  module _ (fw : FixedWindowRateLimit)
      (in_scope : matched http nets fw.scope headers remote_ip ≡ ok true) (r : ℕ)
      (rate : fw.rate_per_unit ≡ pos r) (small : r < 2147483648) where
    step :
        (clock : Clock) (key : String) (c : ℕ) (m : List (String × ℤ))
        → counter_key fw clock.first ≡ key
        → suc c < 2147483648
        → HasRoom key c m
        → let (fw', answer) =
            should_limit http nets first_key clock headers remote_ip (limiter fw m) in
          (fw' ≡ limiter fw (insert key (pos (suc c)) m))
          × (passed answer ≡ (if leb (suc c) r then 1 else 0))
    unfolding should_limit counter_key
    step clock key c m same fits room = rw in_scope (
        rw (evict-HasRoom first_key key c m room) (
          rw same (
            rw room.0 (
              rw (add_i32_pos c 1 (omega arith)) (
                rw rate (
                  rw (remaining r (c + 1) small (omega arith))
                    (rw add-one (refl, ground arith))))))))

    -- While a request's key has a counter at `c` and room in the map, the requests of one key that
    -- come next, however many, are counted: those that pass are the ones up to the rate, so with
    -- those counted before they make up the smaller of the rate and all the requests. The rate is
    -- not negative, and the count stays below 2^31.
    pub passed_in_window :
        (clocks : List Clock) (key : String) (c : ℕ) (m : List (String × ℤ))
        → All (λ clock. counter_key fw clock.first ≡ key) clocks
        → c + length clocks < 2147483648
        → HasRoom key c m
        → (run clocks (limiter fw m)).1 + min c r ≡ min (c + length clocks) r
    unfolding run
    passed_in_window [] key c m same fits room = omega arith
    passed_in_window (clock ∷ clocks) key c m (first, rest) fits room =
        let (state, one) = step clock key c m first (omega arith) room in
        let ih =
          passed_in_window clocks key (suc c) (insert key (pos (suc c)) m) rest (omega arith)
            (insert-HasRoom key c m room) in
        rw (state, one) (ground (arith, ih))
