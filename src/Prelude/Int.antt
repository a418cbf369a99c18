-- ===== src/Prelude/Int.antt =====
-- Go's int, 64 bits wide, as the integer that a word stands for.
use Prim.Native.Nat.{ℕ, ◌-◌, ◌^◌}
use kubezonnet.Prelude.Tests.{ltb, if◌then◌else◌}

-- `negsuc n` is -(n + 1).
pub data ℤ : Type 0 where
  pos : ℕ → ℤ
  negsuc : ℕ → ℤ

-- `int(w)` of a uint64.
abbrev pub int64 : ℕ → ℤ
int64 w = if ltb w (2 ^ 63) then pos w else negsuc (2 ^ 64 - w - 1)
