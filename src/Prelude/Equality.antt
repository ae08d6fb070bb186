-- ===== src/Prelude/Equality.antt =====
-- `==` of Python for the types that the program compares: one operator, an instance for each type.
use Prim.Native.Nat.{ℕ}
use Prim.Native.String.{String}
use mathlib.Core.Path.{◌≡◌, refl}
use mathlib.Core.Logic.{◌↔◌}
use mathlib.Core.Bool.{Bool, true}
use native.Mathlib.Omega.{arith}
use text.Mathlib.Text.{◌==◌ as str_eq}
use text.Mathlib.TextEquality.{eq_iff}
use pred_engine.Prelude.Tests.{nat_beq}

pub record Eq {ℓ} (A : Type ℓ) : Type ℓ where
  pub iguales : A → A → Bool
  pub refleja : (a b : A) → (iguales a b ≡ true) ↔ (a ≡ b)

infix 50 ◌==◌
abbrev pub ◌==◌ {ℓ} : {A : Type ℓ} ⦃e : Eq A⦄ → A → A → Bool
◌==◌ ⦃e⦄ = e.iguales

pub nat_beq_iff : (a b : ℕ) → (nat_beq a b ≡ true) ↔ (a ≡ b)
nat_beq_iff a b = ground arith

instance abbrev pub nat_eq : Eq ℕ
nat_eq = record { iguales = nat_beq; refleja = nat_beq_iff }

instance abbrev pub string_eq : Eq String
string_eq = record { iguales = str_eq; refleja = eq_iff }

pub string_eq_refl : (t : String) → (t == t) ≡ true
string_eq_refl t = (eq_iff t t).1 refl
