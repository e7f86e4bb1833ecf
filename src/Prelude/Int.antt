-- ===== src/Prelude/Int.antt =====
-- `int` and `std::int64_t` as integers: `negsuc n` is -(n + 1).
use Prim.Native.Nat.{ℕ, zero, suc, ◌-◌, ◌%◌, ◌^◌, ◌<◌}
use mathlib.Core.Path.{◌≡◌}
use mathlib.Core.Logic.{inl, inr}
use mathlib.Core.Bool.{Bool, true, false}
use native.Mathlib.Omega.{arith}
use localsend_handheld.Prelude.Tests.{◌==◌, ltb, if◌then◌else◌, Bool-cases}

pub data ℤ : Type 0 where
  pos : ℕ → ℤ
  negsuc : ℕ → ℤ

-- `x > 0`
abbrev pub is_positive : ℤ → Bool
is_positive (pos zero) = false
is_positive (pos (suc n)) = true
is_positive (negsuc n) = false

-- `x == y`
abbrev pub int_eq : ℤ → ℤ → Bool
int_eq (pos a) (pos b) = a == b
int_eq (pos a) (negsuc b) = false
int_eq (negsuc a) (pos b) = false
int_eq (negsuc a) (negsuc b) = a == b

-- `static_cast<std::int64_t>(x)` of a `std::uint64_t`.
abbrev pub int64_of_uint64 : ℕ → ℤ
int64_of_uint64 x = if ltb x (2 ^ 63) then pos x else negsuc (2 ^ 64 - 1 - x)

-- `static_cast<std::uint64_t>(x)` of a `std::int64_t`.
abbrev pub uint64_of_int64 : ℤ → ℕ
uint64_of_int64 (pos a) = a % 2 ^ 64
uint64_of_int64 (negsuc a) = 2 ^ 64 - 1 - a % 2 ^ 64

-- The last 32 bits, as `int` has them.
abbrev signed32 : ℕ → ℤ
signed32 x = if ltb x (2 ^ 31) then pos x else negsuc (2 ^ 32 - 1 - x)

-- `static_cast<int>(x)` of a `std::int64_t`.
abbrev pub int_of_int64 : ℤ → ℤ
int_of_int64 (pos a) = signed32 (a % 2 ^ 32)
int_of_int64 (negsuc a) = signed32 (2 ^ 32 - 1 - a % 2 ^ 32)

-- A size goes through the signed type and back.
pub uint64_of_int64-int64_of_uint64 : (x : ℕ) → x < 2 ^ 64 → uint64_of_int64 (int64_of_uint64 x) ≡ x
uint64_of_int64-int64_of_uint64 x h = elim (Bool-cases (ltb x (2 ^ 63))) [
  | inl e ↦ rw e (omega arith)
  | inr e ↦ rw e (omega arith)
]
