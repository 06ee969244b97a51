-- ===== src/Prelude/Int.antt =====
-- Rust's signed integers: an integer with its sign, and the two's complement casts of `i32`.
-- The library's ℤ stands on another ℕ. Arithmetic on `i32` wraps, as it does in the release
-- profile of rust-proxy/Cargo.toml (overflow-checks = false).
use Prim.Native.Nat.{ℕ, ◌+◌, ◌-◌, ◌%◌, ◌≤◌, ◌<◌}
use mathlib.Core.Path.{◌≡◌, refl}
use mathlib.Core.Bool.{Bool, true, false}
use native.Mathlib.Omega.{arith}
use silverwind.Prelude.Tests.{ltb, leb, if◌then◌else◌}

-- `negsuc n` is -(n + 1).
pub data ℤ : Type 0 where
  pos : ℕ → ℤ
  negsuc : ℕ → ℤ

-- The bits of an `i32`, as a `u32`.
unfoldable pub to_u32 : ℤ → ℕ
to_u32 (pos n) = n % 4294967296
to_u32 (negsuc n) = 4294967295 - n % 4294967296

-- `n as i32` of an unsigned number.
unfoldable pub as_i32 : ℕ → ℤ
as_i32 n =
    let bits = n % 4294967296 in
    if ltb bits 2147483648 then pos bits else negsuc (4294967295 - bits)

-- `a + b`, `a - b` on `i32`, wrapping.
unfoldable pub add_i32 : ℤ → ℤ → ℤ
unfolding to_u32 as_i32
add_i32 a b = as_i32 (to_u32 a + to_u32 b)

unfoldable pub sub_i32 : ℤ → ℤ → ℤ
unfolding to_u32 as_i32
sub_i32 a b = as_i32 (to_u32 a + 4294967296 - to_u32 b)

abbrev pub lt_ℤ : ℤ → ℤ → Bool
lt_ℤ (pos a) (pos b) = ltb a b
lt_ℤ (pos a) (negsuc b) = false
lt_ℤ (negsuc a) (pos b) = true
lt_ℤ (negsuc a) (negsuc b) = ltb b a

abbrev pub le_ℤ : ℤ → ℤ → Bool
le_ℤ (pos a) (pos b) = leb a b
le_ℤ (pos a) (negsuc b) = false
le_ℤ (negsuc a) (pos b) = true
le_ℤ (negsuc a) (negsuc b) = leb b a

abbrev pub min_ℤ : ℤ → ℤ → ℤ
min_ℤ a b = if le_ℤ a b then a else b

pub add_i32_pos : (a b : ℕ) → a + b < 2147483648 → add_i32 (pos a) (pos b) ≡ pos (a + b)
unfolding add_i32
add_i32_pos a b h = ground arith

pub sub_i32_pos : (a b : ℕ) → b ≤ a → a < 2147483648 → sub_i32 (pos a) (pos b) ≡ pos (a - b)
unfolding sub_i32
sub_i32_pos a b h k = ground arith

pub as_i32_pos : (n : ℕ) → n < 2147483648 → as_i32 n ≡ pos n
unfolding as_i32
as_i32_pos n h = ground arith

wraps : add_i32 (pos 2147483647) (pos 1) ≡ negsuc 2147483647
unfolding add_i32
wraps = refl
