-- ===== src/Base/Int.antt =====
-- Go's int64 values as integers: `negsuc n` is -(n + 1).
use Prim.Native.Nat.{ℕ, zero, suc, ◌+◌, ◌≤◌}
use mathlib.Core.Path.{◌≡◌}
use mathlib.Core.Logic.{◌↔◌}
use mathlib.Core.Bool.{Bool, true, false}
use native.Mathlib.Omega.{arith}
use widuino.Base.Cond.{leb}

pub data ℤ : Type 0 where
  pos : ℕ → ℤ
  negsuc : ℕ → ℤ

abbrev pub pos_part : ℤ → ℕ
pos_part (pos n) = n
pos_part (negsuc n) = 0

abbrev pub neg_part : ℤ → ℕ
neg_part (pos n) = 0
neg_part (negsuc n) = suc n

infix 50 ◌≤ℤ◌
abbrev pub ◌≤ℤ◌ : ℤ → ℤ → Type 0
a ≤ℤ b = pos_part a + neg_part b ≤ pos_part b + neg_part a

-- The test `a <= b`.
abbrev pub lebℤ : ℤ → ℤ → Bool
lebℤ a b = leb (pos_part a + neg_part b) (pos_part b + neg_part a)

-- `a + 1`.
abbrev pub next : ℤ → ℤ
next (pos n) = pos (suc n)
next (negsuc zero) = pos 0
next (negsuc (suc n)) = negsuc n

pub next_le_iff : (a b : ℤ) → (lebℤ (next a) b ≡ true) ↔ (lebℤ b a ≡ false)
next_le_iff (pos a) (pos b) = ground arith
next_le_iff (pos a) (negsuc b) = ground arith
next_le_iff (negsuc zero) (pos b) = ground arith
next_le_iff (negsuc zero) (negsuc b) = ground arith
next_le_iff (negsuc (suc a)) (pos b) = ground arith
next_le_iff (negsuc (suc a)) (negsuc b) = ground arith
