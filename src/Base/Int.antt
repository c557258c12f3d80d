-- ===== src/Base/Int.antt =====
-- Integers: results and status codes of the code, which are int32_t.
use Prim.Native.Nat.{ℕ}
use mathlib.Core.Path.{◌≡◌}
use mathlib.Core.Bool.{Bool, true, false}
use native.Mathlib.Omega.{arith}
use qoraal.Base.Tests.{◌==◌, ltb}

-- `negsuc n` is -(n + 1).
pub data ℤ : Type 0 where
  pos : ℕ → ℤ
  negsuc : ℕ → ℤ

infix 50 ◌==ℤ◌
abbrev pub ◌==ℤ◌ : ℤ → ℤ → Bool
pos a ==ℤ pos b = a == b
pos a ==ℤ negsuc b = false
negsuc a ==ℤ pos b = false
negsuc a ==ℤ negsuc b = a == b

infix 50 ◌<ℤ?◌
abbrev pub ◌<ℤ?◌ : ℤ → ℤ → Bool
pos a <ℤ? pos b = ltb a b
pos a <ℤ? negsuc b = false
negsuc a <ℤ? pos b = true
negsuc a <ℤ? negsuc b = ltb b a

pub ==ℤ_eq : (a b : ℤ) → (a ==ℤ b) ≡ true → a ≡ b
==ℤ_eq (pos a) (pos b) e = ground arith
==ℤ_eq (pos a) (negsuc b) e = ground arith
==ℤ_eq (negsuc a) (pos b) e = ground arith
==ℤ_eq (negsuc a) (negsuc b) e = ground arith
