-- ===== src/Prelude/Int.antt =====
-- Python's `int`, where the program tests the sign.
use Prim.Native.Nat.{ℕ}
use mathlib.Core.Bool.{Bool, false}
use langgraph_agent_stack.Prelude.Tests.{leb}

-- `negsuc n` is -(n + 1).
pub data ℤ : Type 0 where
  pos : ℕ → ℤ
  negsuc : ℕ → ℤ

-- `n <= z`
abbrev pub at_least : ℕ → ℤ → Bool
at_least n (pos k) = leb n k
at_least n (negsuc k) = false

abbrev pub to_ℕ : ℤ → ℕ
to_ℕ (pos k) = k
to_ℕ (negsuc k) = 0
