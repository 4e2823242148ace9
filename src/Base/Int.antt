-- ===== src/Base/Int.antt =====
-- Integers over the native numbers, under the library's names.
use Prim.Native.Nat.{ℕ, ◌+◌, ◌-◌}
use cloudbase_init.Base.Tests.{ltb, if◌then◌else◌}

pub data ℤ : Type 0 where
  pos negsuc : ℕ → ℤ

-- Addition of a number and of `- (b + 1)`.
abbrev subtract_suc : ℕ → ℕ → ℤ
subtract_suc a b = if ltb b a then pos (a - (b + 1)) else negsuc (b - a)

infixl 6 ◌+ℤ◌
abbrev pub ◌+ℤ◌ : ℤ → ℤ → ℤ
pos a +ℤ pos b = pos (a + b)
pos a +ℤ negsuc b = subtract_suc a b
negsuc a +ℤ pos b = subtract_suc b a
negsuc a +ℤ negsuc b = negsuc (a + b + 1)
