-- ===== src/Common/Integer.antt =====
-- Go's signed integers, and their conversion to uint32.
use Prim.Native.Nat.{ℕ, ◌+◌, ◌-◌, ◌%◌, ◌^◌}
use mathlib.Core.Path.{◌≡◌}
use mathlib.Core.Bool.{Bool, true, false}
use mathlib.Core.Logic.{◌↔◌}
use native.Mathlib.Omega.{arith}
use sesame.Common.Equality.{Comparable, ◌==◌, nat_eq}

-- `negsuc n` is -n - 1.
pub data ℤ : Type 0 where
  pos negsuc : ℕ → ℤ

abbrev int_beq : ℤ → ℤ → Bool
int_beq (pos n) (pos m) = n == m
int_beq (negsuc n) (negsuc m) = n == m
int_beq _ _ = false

pub int_beq_iff : (a b : ℤ) → (int_beq a b ≡ true) ↔ (a ≡ b)
int_beq_iff (pos n) (pos m) = ground (arith, nat_eq.eqb_iff n m)
int_beq_iff (negsuc n) (negsuc m) = ground (arith, nat_eq.eqb_iff n m)
int_beq_iff (pos n) (negsuc m) = ground arith
int_beq_iff (negsuc n) (pos m) = ground arith

instance abbrev pub int_eq : Comparable ℤ
int_eq = record { eqb = int_beq; eqb_iff = int_beq_iff }

-- uint32(n)
unfoldable pub to_uint32 : ℤ → ℕ
to_uint32 (pos n) = n % 2 ^ 32
to_uint32 (negsuc n) = 2 ^ 32 - (n % 2 ^ 32 + 1)
