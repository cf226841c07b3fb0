-- ===== src/Prelude/Int.antt =====
-- Signed integers; `negsuc n` is -(n + 1).
use Prim.Native.Nat.{ℕ, suc, ◌-◌, ◌*◌, ◌%◌, ◌^◌, compare, Ordering}
use mathlib.Core.Bool.{Bool, false, true}
use fos_next.Prelude.Tests.{ltb, if◌then◌else◌}

pub data ℤ : Type 0 where
  pos : ℕ → ℤ
  negsuc : ℕ → ℤ

-- `==` on integers
abbrev pub eq_ℤ : ℤ → ℤ → Bool
eq_ℤ (pos a) (pos b) = elim (compare a b) [ Ordering.eq ↦ true | _ ↦ false ]
eq_ℤ (pos a) (negsuc b) = false
eq_ℤ (negsuc a) (pos b) = false
eq_ℤ (negsuc a) (negsuc b) = elim (compare a b) [ Ordering.eq ↦ true | _ ↦ false ]

-- The number, or 0 if it is negative: the rounds of a loop `for i := 1; i <= n; i++`.
abbrev pub pos_part : ℤ → ℕ
pos_part (pos n) = n
pos_part (negsuc n) = 0

-- the int64 with this bit pattern
abbrev pub of_bits : ℕ → ℤ
of_bits m = if ltb m (2 ^ 63) then pos m else negsuc (2 ^ 64 - m - 1)

-- An int64 times a number, with wrap-around.
unfoldable pub mul_int64 : ℤ → ℕ → ℤ
mul_int64 (pos n) k = of_bits (n * k % 2 ^ 64)
mul_int64 (negsuc n) k = of_bits ((2 ^ 64 - suc n * k % 2 ^ 64) % 2 ^ 64)
