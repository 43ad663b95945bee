-- ===== src/Base/Int.antt =====
-- `int` and the conversions to and from it that the program makes.
use Prim.Native.Nat.{ℕ, ◌-◌, ◌%◌, ◌^◌, ◌<◌}
use mathlib.Core.Path.{◌≡◌}
use mathlib.Core.Logic.{inl, inr}
use mathlib.Core.Bool.{Bool, true, false}
use native.Mathlib.Omega.{arith}
use single_terminal_login_sy.Base.Tests.{Bool-cases, ltb, ◌==◌, if◌then◌else◌}

-- `negsuc n` is -(n + 1).
pub data ℤ : Type 0 where
  pos : ℕ → ℤ
  negsuc : ℕ → ℤ

-- `a < 0`
abbrev pub is_neg : ℤ → Bool
is_neg (pos n) = false
is_neg (negsuc n) = true

-- `a > 0`
abbrev pub is_pos : ℤ → Bool
is_pos (pos n) = ltb 0 n
is_pos (negsuc n) = false

abbrev pub eq_ℤ : ℤ → ℤ → Bool
eq_ℤ (pos m) (pos n) = m == n
eq_ℤ (pos m) (negsuc n) = false
eq_ℤ (negsuc m) (pos n) = false
eq_ℤ (negsuc m) (negsuc n) = m == n

pub eq_ℤ_eq : (a b : ℤ) → eq_ℤ a b ≡ true → a ≡ b
eq_ℤ_eq (pos m) (pos n) h = ground arith
eq_ℤ_eq (pos m) (negsuc n) h = cc
eq_ℤ_eq (negsuc m) (pos n) h = cc
eq_ℤ_eq (negsuc m) (negsuc n) h = ground arith

pub eq_ℤ_refl : (a : ℤ) → eq_ℤ a a ≡ true
eq_ℤ_refl (pos n) = ground arith
eq_ℤ_refl (negsuc n) = ground arith

-- The range of a 32-bit `int`.
abbrev pub IsInt : ℤ → Type 0
IsInt (pos n) = n < 2 ^ 31
IsInt (negsuc n) = n < 2 ^ 31

-- `(int) n` of an `unsigned long` n: the low 32 bits in two's complement.
unfoldable pub to_int : ℕ → ℤ
to_int n = let w = n % 2 ^ 32 in if ltb w (2 ^ 31) then pos w else negsuc (2 ^ 32 - 1 - w)

-- `(unsigned long long) z` of an `int` z: sign extension.
unfoldable pub to_ull : ℤ → ℕ
to_ull (pos n) = n
to_ull (negsuc n) = 2 ^ 64 - 1 - n

-- `(int) z` of a `long long` z.
unfoldable pub narrow : ℤ → ℤ
narrow (pos n) = to_int n
narrow (negsuc n) = to_int (2 ^ 32 - 1 - n % 2 ^ 32)

pub to_int_small : (n : ℕ) → n < 2 ^ 31 → to_int n ≡ pos n
unfolding to_int
to_int_small n h = ground arith

pub to_int-to_ull : (z : ℤ) → IsInt z → to_int (to_ull z) ≡ z
unfolding to_int to_ull
to_int-to_ull (pos n) h = ground arith
to_int-to_ull (negsuc n) h = ground arith

pub narrow-IsInt : (z : ℤ) → IsInt z → narrow z ≡ z
unfolding narrow to_int
narrow-IsInt (pos n) h = ground arith
narrow-IsInt (negsuc n) h = ground arith

pub to_int-IsInt : (n : ℕ) → IsInt (to_int n)
unfolding to_int
to_int-IsInt n = elim (Bool-cases (ltb (n % 2 ^ 32) (2 ^ 31))) [
  | inl low ↦ rw low (ground arith)
  | inr high ↦ rw high (ground arith)
]

-- Whatever an item's number is, an `int` that takes it is in range.
pub IsInt-narrow : (z : ℤ) → IsInt (narrow z)
unfolding narrow
IsInt-narrow (pos n) = to_int-IsInt n
IsInt-narrow (negsuc n) = to_int-IsInt (2 ^ 32 - 1 - n % 2 ^ 32)
