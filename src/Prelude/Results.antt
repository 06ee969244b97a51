-- ===== src/Prelude/Results.antt =====
-- What a Rust call comes to: a value, an `AppError` with its message, or a panic.
-- A call that changes its receiver returns the new state beside the outcome, since what was
-- written before an error or a panic stays written.
use Prim.Native.String.{String}
use mathlib.Core.Path.{◌≡◌, refl}
use mathlib.Core.Logic.{◌⊎◌, inl, inr, ◌≢◌}
use mathlib.Core.Option.{Option, none, some}

pub data Outcome {ℓ} (A : Type ℓ) : Type ℓ where
  ok : A → Outcome A
  err : String → Outcome A
  panic : Outcome A

infixl 5 ◌>>=◌
abbrev pub ◌>>=◌ {ℓ κ} : {A : Type ℓ} {B : Type κ} → Outcome A → (A → Outcome B) → Outcome B
ok a >>= f = f a
err e >>= f = err e
panic >>= f = panic

-- `option.ok_or(message)?`.
abbrev pub ok_or {ℓ} : {A : Type ℓ} → Option A → String → Outcome A
ok_or none message = err message
ok_or (some a) message = ok a

-- `result.map_err(f)`.
abbrev pub map_err {ℓ} : {A : Type ℓ} → (String → String) → Outcome A → Outcome A
map_err f (ok a) = ok a
map_err f (err e) = err (f e)
map_err f panic = panic

pub Outcome-cases {ℓ} :
    {A : Type ℓ} (o : Outcome A)
    → ((a : A) × (o ≡ ok a)) ⊎ (((e : String) × (o ≡ err e)) ⊎ (o ≡ panic))
Outcome-cases (ok a) = inl (a, refl)
Outcome-cases (err e) = inr (inl (e, refl))
Outcome-cases panic = inr (inr refl)

-- The unit type of Rust, at the first level.
abbrev pub Done : Type 0
Done = Unit

-- The first of two optional values that is there.
abbrev pub or_else {ℓ} : {A : Type ℓ} → Option A → Option A → Option A
or_else none b = b
or_else (some a) b = some a

-- `f(&mut state)?; rest`: what an error or a panic leaves is the state at that point.
abbrev pub and_then {ℓ} :
    {S : Type ℓ} → S × Outcome Done → (S → S × Outcome Done) → S × Outcome Done
and_then (s, ok u) rest = rest s
and_then (s, err e) rest = (s, err e)
and_then (s, panic) rest = (s, panic)

pub ok-inj {ℓ} : {A : Type ℓ} {a b : A} → ok a ≡ ok b → a ≡ b
ok-inj e = cc

pub some-inj {ℓ} : {A : Type ℓ} {a b : A} → some a ≡ some b → a ≡ b
some-inj e = cc

pub none≢some {ℓ} : {A : Type ℓ} {a : A} → none ≢ some a
none≢some e = cc
