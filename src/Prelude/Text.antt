-- ===== src/Prelude/Text.antt =====
-- What the code does with a `str`: concatenation, prefixes, characters, parts and decimal numbers.
use Prim.Native.Nat.{ℕ, zero, suc, ◌/◌, ◌%◌}
use Prim.Native.Char.{code}
use Prim.Native.String
use Prim.Native.String.{String}
use mathlib.Core.Path.{◌≡◌, refl}
use mathlib.Core.Bool.{Bool, true, false, ◌||◌}
use mathlib.Core.Option.{Option, none, some}
use mathlib.Core.List.{List, [], ◌∷◌}
use Prim.Native.Nat.{◌+◌}
use silverwind.Prelude.Int.{ℤ, pos, negsuc}
use silverwind.Prelude.Tests.{if◌then◌else◌, ◌==◌, ltb, str_eq}

infixr 60 ◌⧺◌
abbrev pub ◌⧺◌ : String → String → String
s ⧺ t = String.◌++◌ s t

-- `s.contains(c)`, for a character given by its code point.
unfoldable pub contains_char : ℕ → String → Bool
contains_char c String.[] = false
contains_char c (String.◌∷◌ d s) = code d == c || contains_char c s

-- `s.strip_prefix(p)`, and `s.starts_with(p)`.
unfoldable pub strip_prefix : String → String → Option String
strip_prefix s String.[] = some s
strip_prefix String.[] (String.◌∷◌ d p) = none
strip_prefix (String.◌∷◌ c s) (String.◌∷◌ d p) =
    let rest = strip_prefix s p in if code c == code d then rest else none

abbrev pub is_some {ℓ} : {A : Type ℓ} → Option A → Bool
is_some none = false
is_some (some a) = true

unfoldable pub starts_with : String → String → Bool
unfolding strip_prefix
starts_with s p = is_some (strip_prefix s p)

-- `s.split(c)`: the parts between the characters `c`, of which there is always one.
split_from : ℕ → String → String → List String
split_from c part String.[] = part ∷ []
split_from c part (String.◌∷◌ d s) =
    let cut = part ∷ split_from c "" s in
    let on = split_from c (part ⧺ String.◌∷◌ d String.[]) s in if code d == c then cut else on

unfoldable pub split : ℕ → String → List String
unfolding split_from
split c s = split_from c "" s

-- `parts.join(separator)`.
unfoldable pub join : String → List String → String
join by [] = ""
join by (s ∷ []) = s
join by (s ∷ t ∷ rest) = s ⧺ by ⧺ join by (t ∷ rest)

-- `s.ends_with(e)`, and `s.contains(t)` for a text.
unfoldable pub ends_with : String → String → Bool
ends_with String.[] e = str_eq "" e
ends_with (String.◌∷◌ c s) e = str_eq (String.◌∷◌ c s) e || ends_with s e

unfoldable pub contains_str : String → String → Bool
unfolding starts_with
contains_str String.[] t = starts_with "" t
contains_str (String.◌∷◌ c s) t = starts_with (String.◌∷◌ c s) t || contains_str s t

unfoldable pub digit : ℕ → String
digit n =
    if n == 0
    then "0"
    else if n == 1
    then "1"
    else if n == 2
    then "2"
    else if n == 3
    then "3"
    else if n == 4
    then "4"
    else if n == 5
    then "5"
    else if n == 6
    then "6"
    else if n == 7
    then "7"
    else if n == 8
    then "8"
    else "9"

unfoldable pub decimal_from : ℕ → ℕ → String → String
decimal_from zero n acc = acc
decimal_from (suc fuel) n acc =
    let more = decimal_from fuel (n / 10) (digit (n % 10) ⧺ acc) in
    if ltb n 10 then digit n ⧺ acc else more

-- `n.to_string()` of a `u64`, which has at most 20 digits.
unfoldable pub decimal : ℕ → String
unfolding decimal_from digit
decimal n = decimal_from 20 n ""

-- `n.to_string()` of a signed integer.
unfoldable pub int_text : ℤ → String
unfolding decimal
int_text (pos n) = decimal n
int_text (negsuc n) = "-" ⧺ decimal (n + 1)

decimal_tests : (decimal 0 ≡ "0") × (decimal 1700 ≡ "1700")
unfolding decimal
decimal_tests = (refl, refl)

split_test : split b' ' "Basic a  b" ≡ "Basic" ∷ "a" ∷ "" ∷ "b" ∷ []
unfolding split
split_test = refl
