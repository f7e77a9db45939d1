-- ===== src/Base/Int.antt =====
-- The C type `int` where the code can meet a negative number.
use Prim.Native.Nat.{ℕ}
use mathlib.Core.Bool.{Bool, false}
use yaup.Base.Tests.{leb}

-- `negsuc n` is -(n + 1).
pub data ℤ : Type 0 where
  pos : ℕ → ℤ
  negsuc : ℕ → ℤ

-- `n <= z` for a constant n
abbrev pub at_least : ℕ → ℤ → Bool
at_least n (pos m) = leb n m
at_least n (negsuc m) = false
