-- ===== src/Base/Int.antt =====
-- Signed integers (`i64`) over the native numbers, under the library's names.
use Prim.Native.Nat.{ℕ, suc, ◌+◌, ◌-◌, ◌*◌, min}
use mathlib.Core.Bool.{Bool, false, not, ◌&&◌}
use codex_provider.Base.Tests.{ltb, leb}

-- `negsuc n` is -(n + 1).
pub data ℤ : Type 0 where
  pos : ℕ → ℤ
  negsuc : ℕ → ℤ

abbrev pub pos_part : ℤ → ℕ
pos_part (pos n) = n
pos_part (negsuc n) = 0

abbrev pub neg_part : ℤ → ℕ
neg_part (pos n) = 0
neg_part (negsuc n) = suc n

abbrev pub ltb_ℤ : ℤ → ℤ → Bool
ltb_ℤ a b = ltb (pos_part a + neg_part b) (pos_part b + neg_part a)

abbrev pub eq_ℤ : ℤ → ℤ → Bool
eq_ℤ a b = not (ltb_ℤ a b) && not (ltb_ℤ b a)

-- `clamp(0, top)` with `top` not negative.
abbrev pub clamp_to : ℕ → ℤ → ℕ
clamp_to top (pos n) = min n top
clamp_to top (negsuc n) = 0

-- `n <= z`.
abbrev pub le_ℤ : ℕ → ℤ → Bool
le_ℤ n (pos z) = leb n z
le_ℤ n (negsuc z) = false

-- `z * k`, for a `k` that is not negative and not zero.
abbrev pub scale : ℕ → ℤ → ℤ
scale k (pos n) = pos (n * k)
scale k (negsuc n) = negsuc (suc n * k - 1)
