-- ===== src/Base/Int.antt =====
-- Go's `int64` as an integer, with its bounds written out where the source relies on them.
use Prim.Native.Nat.{ℕ, suc, ◌+◌, ◌-◌, ◌^◌, ◌≤◌}
use mathlib.Core.Path.{◌≡◌}
use mathlib.Core.Logic.{◌↔◌}
use mathlib.Core.Bool.{Bool, true, false}
use native.Mathlib.Omega.{arith}
use k8s_subvol_provisioner.Base.Tests.{◌==◌, ltb}

-- `negsuc n` is -(n + 1).
pub data ℤ : Type 0 where
  pos : ℕ → ℤ
  negsuc : ℕ → ℤ

unfoldable pub eq_int : ℤ → ℤ → Bool
eq_int (pos a) (pos b) = a == b
eq_int (negsuc a) (negsuc b) = a == b
eq_int _ _ = false

pub eq_int_iff : (a b : ℤ) → (eq_int a b ≡ true) ↔ (a ≡ b)
unfolding eq_int
eq_int_iff (pos a) (pos b) = ground arith
eq_int_iff (negsuc a) (negsuc b) = ground arith
eq_int_iff (pos a) (negsuc b) = ground arith
eq_int_iff (negsuc a) (pos b) = ground arith

-- `x > 0`
unfoldable pub is_positive : ℤ → Bool
is_positive (pos n) = ltb 0 n
is_positive (negsuc n) = false

-- The conversion `uint32(x)` of an `int64`.
unfoldable pub to_uint32 : ℤ → ℕ
to_uint32 (pos n) = Prim.Native.Nat.◌%◌ n (2 ^ 32)
to_uint32 (negsuc n) = 2 ^ 32 - 1 - Prim.Native.Nat.◌%◌ n (2 ^ 32)

-- The range of `int64`.
abbrev pub IsInt64 : ℤ → Type 0
IsInt64 (pos n) = suc n ≤ 2 ^ 63
IsInt64 (negsuc n) = suc n ≤ 2 ^ 63
