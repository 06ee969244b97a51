-- ===== src/Prelude/Loops.antt =====
-- A loop over a list whose body changes a state or fails, and what such a loop keeps.
use Prim.Native.Nat.{ℕ, ◌+◌, ◌*◌}
use mathlib.Core.Path.{◌≡◌, refl, sym, ap, ◌∙◌, subst}
use mathlib.Core.List.{List, [], ◌∷◌, ◌++◌}
use native.Mathlib.Omega.{arith}
use silverwind.Prelude.Lists.{length, All}
use silverwind.Prelude.Results.{Outcome, ok, err, panic, ◌>>=◌, ok-inj, Done, and_then}

-- `for x in xs { body?; }`.
abbrev pub for_each {ℓ} : {A S : Type ℓ} → (A → S → Outcome S) → List A → S → Outcome S
for_each body [] s = ok s
for_each body (x ∷ xs) s = body x s >>= for_each body xs

-- A chain that comes to a value has a first value.
pub bound-ok {ℓ κ} :
    {S : Type ℓ} {T : Type κ} (o : Outcome S) (f : S → Outcome T) (s' : T)
    → o >>= f ≡ ok s'
    → (t : S) × (o ≡ ok t) × (f t ≡ ok s')
bound-ok (ok t) f s' k = (t, refl, k)
bound-ok (err m) f s' k = cc
bound-ok panic f s' k = cc

pub for_each-keeps {ℓ κ} :
    {A S : Type ℓ} (P : S → Type κ) (body : A → S → Outcome S)
    → ((x : A) (s s' : S) → P s → body x s ≡ ok s' → P s')
    → (xs : List A) (s s' : S) → P s
    → for_each body xs s ≡ ok s'
    → P s'
for_each-keeps P body keeps [] s s' p e = subst P (ok-inj e) p
for_each-keeps P body keeps (x ∷ xs) s s' p e =
    let (t, here, later) = bound-ok (body x s) (for_each body xs) s' e in
    for_each-keeps P body keeps xs t s' (keeps x s t p here) later

pub sum {ℓ} : {A : Type ℓ} → (A → ℕ) → List A → ℕ
sum w [] = 0
sum w (x ∷ xs) = w x + sum w xs

pub sum-constant {ℓ} : {A : Type ℓ} (k : ℕ) (xs : List A) → sum (λ x. k) xs ≡ length xs * k
unfolding sum
sum-constant k [] = omega arith
sum-constant k (x ∷ xs) = grind (arith, sum-constant k xs)

-- A loop whose body adds `w x` to what is counted adds the sum.
pub for_each-counts {ℓ} :
    {A S : Type ℓ} (count : S → ℕ) (w : A → ℕ) (body : A → S → Outcome S)
    → ((x : A) (s s' : S) → body x s ≡ ok s' → count s' ≡ count s + w x)
    → (xs : List A) (s s' : S) → for_each body xs s ≡ ok s'
    → count s' ≡ count s + sum w xs
unfolding sum
for_each-counts count w body adds [] s s' e = ap count (sym (ok-inj e)) ∙ omega arith
for_each-counts count w body adds (x ∷ xs) s s' e =
    let (t, here, later) = bound-ok (body x s) (for_each body xs) s' e in
    omega (arith, adds x s t here, for_each-counts count w body adds xs t s' later)

-- What a step and the rest of a chain keep, the chain keeps, wherever it ends.
pub and_then-keeps {ℓ κ} :
    {S : Type ℓ} (P : S → Type κ) (first : S × Outcome Done) (rest : S → S × Outcome Done)
    → P first.0
    → ((s : S) → P s → P (rest s).0)
    → P (and_then first rest).0
and_then-keeps P (s, ok u) rest p keeps = keeps s p
and_then-keeps P (s, err e) rest p keeps = p
and_then-keeps P (s, panic) rest p keeps = p

pub All-append :
    {A : Type 0} (P : A → Type 0) (xs ys : List A) → All P xs → All P ys → All P (xs ++ ys)
All-append P [] ys h k = k
All-append P (x ∷ xs) ys (p, h) k = (p, All-append P xs ys h k)

pub append_assoc :
    {A : Type 0} (xs : List A) (a : A) (ys zs : List A)
    → (xs ++ a ∷ ys) ++ zs ≡ xs ++ a ∷ (ys ++ zs)
append_assoc [] a ys zs = refl
append_assoc (x ∷ xs) a ys zs = ap (λ l. x ∷ l) (append_assoc xs a ys zs)

pub append_nil : {A : Type 0} (xs : List A) → xs ++ [] ≡ xs
append_nil [] = refl
append_nil (x ∷ xs) = ap (λ l. x ∷ l) (append_nil xs)
