-- ===== src/Base/Int.antt =====
-- C's signed `int` arguments, where a negative value is a case of its own: `negsuc n` is -(n + 1).
use Prim.Native.Nat.{ℕ}
use mathlib.Core.Option.{Option, none, some}

pub data ℤ : Type 0 where
  pos : ℕ → ℤ
  negsuc : ℕ → ℤ

-- The value, unless it is negative.
abbrev pub to_ℕ? : ℤ → Option ℕ
to_ℕ? (pos n) = some n
to_ℕ? (negsuc n) = none
