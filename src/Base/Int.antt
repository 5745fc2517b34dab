-- ===== src/Base/Int.antt =====
-- Signed integers over the native numbers, as far as the code compares them.
use Prim.Native.Nat.{ℕ, zero, suc, ◌+◌, ◌-◌, ◌^◌, ◌≤◌}
use mathlib.Core.Path.{◌≡◌}
use mathlib.Core.Logic.{◌↔◌}
use mathlib.Core.Bool.{Bool, true, false}
use native.Mathlib.Omega.{arith}
use nmstate.Base.Tests.{nat_beq, ltb, if◌then◌else◌}
use nmstate.Base.Equality.{Eq}

-- `negsuc n` is -(n + 1).
pub data ℤ : Type 0 where
  pos : ℕ → ℤ
  negsuc : ℕ → ℤ

abbrev pub int_beq : ℤ → ℤ → Bool
int_beq (pos a) (pos b) = nat_beq a b
int_beq (negsuc a) (negsuc b) = nat_beq a b
int_beq _ _ = false

pub int_beq_iff : (a b : ℤ) → (int_beq a b ≡ true) ↔ (a ≡ b)
int_beq_iff a b = ground arith

instance abbrev pub int_eq : Eq ℤ
int_eq = record { beq = int_beq; beq_iff = int_beq_iff }

abbrev pub int_ltb : ℤ → ℤ → Bool
int_ltb (pos a) (pos b) = ltb a b
int_ltb (negsuc a) (negsuc b) = ltb b a
int_ltb (negsuc a) (pos b) = true
int_ltb (pos a) (negsuc b) = false

-- `Iterator::max` of two numbers.
abbrev pub int_max : ℤ → ℤ → ℤ
int_max a b = if int_ltb a b then b else a

-- `+ 1` on `i64`, which wraps.
abbrev pub i64_succ : ℤ → ℤ
i64_succ (pos n) = if nat_beq (n + 1) (2 ^ 63) then negsuc (2 ^ 63 - 1) else pos (n + 1)
i64_succ (negsuc zero) = pos 0
i64_succ (negsuc (suc n)) = negsuc n

-- The number is at most the natural number.
abbrev pub IsAtMost : ℕ → ℤ → Type 0
IsAtMost b (pos n) = n ≤ b
IsAtMost b (negsuc n) = Unit
