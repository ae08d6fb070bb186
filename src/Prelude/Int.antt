-- ===== src/Prelude/Int.antt =====
-- Python's `int` where it may be negative: a seed, which the program only compares.
use Prim.Native.Nat.{ℕ, suc, ◌+◌, ◌-◌}
use mathlib.Core.Path.{◌≡◌}
use mathlib.Core.Logic.{◌↔◌}
use mathlib.Core.Bool.{Bool, true, false}
use native.Mathlib.Omega.{arith}
use pred_engine.Prelude.Tests.{nat_beq, ltb, if◌then◌else◌}
use pred_engine.Prelude.Equality.{Eq}

-- `negsuc n` is -(n + 1).
pub data ℤ : Type 0 where
  pos : ℕ → ℤ
  negsuc : ℕ → ℤ

abbrev pub ℤ_beq : ℤ → ℤ → Bool
ℤ_beq (pos a) (pos b) = nat_beq a b
ℤ_beq (negsuc a) (negsuc b) = nat_beq a b
ℤ_beq _ _ = false

pub ℤ_beq_iff : (a b : ℤ) → (ℤ_beq a b ≡ true) ↔ (a ≡ b)
ℤ_beq_iff a b = ground arith

instance abbrev pub ℤ_eq : Eq ℤ
ℤ_eq = record { iguales = ℤ_beq; refleja = ℤ_beq_iff }

-- `a > b`
abbrev pub gtb_ℤ : ℤ → ℤ → Bool
gtb_ℤ (pos a) (pos b) = ltb b a
gtb_ℤ (pos a) (negsuc b) = true
gtb_ℤ (negsuc a) (pos b) = false
gtb_ℤ (negsuc a) (negsuc b) = ltb a b

-- `a - b` where it is not negative, and 0 else.
abbrev pub diferencia : ℤ → ℤ → ℕ
diferencia (pos a) (pos b) = a - b
diferencia (pos a) (negsuc b) = a + suc b
diferencia (negsuc a) (pos b) = 0
diferencia (negsuc a) (negsuc b) = b - a

-- `z + n`
abbrev pub mas : ℤ → ℕ → ℤ
mas (pos a) n = pos (a + n)
mas (negsuc a) n = if ltb a n then pos (n - suc a) else negsuc (a - n)
