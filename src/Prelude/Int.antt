-- ===== src/Prelude/Int.antt =====
-- Python's `int`, unbounded and signed, over the native numbers. `negsuc n` is -(n + 1).
use project_nexus.Prelude.Tests.{nat_eq, if◌then◌else◌}
use Prim.Native.Nat.{ℕ, ◌+◌, ◌-◌}
use mathlib.Core.Bool.{Bool, false}

pub data ℤ : Type 0 where
  pos : ℕ → ℤ
  negsuc : ℕ → ℤ

-- n + 1
unfoldable pub increment : ℤ → ℤ
increment (pos n) = pos (n + 1)
increment (negsuc n) = if nat_eq n 0 then pos 0 else negsuc (n - 1)

abbrev pub is_zero : ℤ → Bool
is_zero (pos n) = nat_eq n 0
is_zero (negsuc n) = false
