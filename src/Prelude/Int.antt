-- ===== src/Prelude/Int.antt =====
-- Signed integers over the native numbers: Python's `int`, of which the program compares values.
use Prim.Native.Nat.{ℕ}
use mathlib.Core.Path.{◌≡◌}
use mathlib.Core.Logic.{◌↔◌}
use mathlib.Core.Bool.{Bool, true, false}
use native.Mathlib.Omega.{arith}
use project_bourne.Prelude.Tests.{Equality, ltb, nat_beq}

-- `negsuc n` is -(n + 1).
pub data ℤ : Type 0 where
  pos : ℕ → ℤ
  negsuc : ℕ → ℤ

abbrev pub int_beq : ℤ → ℤ → Bool
int_beq (pos a) (pos b) = nat_beq a b
int_beq (pos a) (negsuc b) = false
int_beq (negsuc a) (pos b) = false
int_beq (negsuc a) (negsuc b) = nat_beq a b

pub int_beq_iff : (a b : ℤ) → (int_beq a b ≡ true) ↔ (a ≡ b)
int_beq_iff (pos a) (pos b) = ground arith
int_beq_iff (pos a) (negsuc b) = (λ h. cc, λ h. cc)
int_beq_iff (negsuc a) (pos b) = (λ h. cc, λ h. cc)
int_beq_iff (negsuc a) (negsuc b) = ground arith

instance abbrev pub int_eq : Equality ℤ
int_eq = record { is_equal = int_beq; is_equal_iff = int_beq_iff }

-- `z < n` for a natural `n`
abbrev pub int_ltb : ℤ → ℕ → Bool
int_ltb (pos a) n = ltb a n
int_ltb (negsuc a) n = true
