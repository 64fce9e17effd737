-- ===== src/Base/Int.antt =====
-- Python's signed integers, as far as the code tests their sign.
use Prim.Native.Nat.{ℕ}
use mathlib.Core.Bool.{Bool, true, false}

-- `negsuc n` is -(n + 1).
pub data ℤ : Type 0 where
  pos : ℕ → ℤ
  negsuc : ℕ → ℤ

abbrev pub is_negative : ℤ → Bool
is_negative (pos n) = false
is_negative (negsuc n) = true

abbrev pub to_ℕ : ℤ → ℕ
to_ℕ (pos n) = n
to_ℕ (negsuc n) = 0

-- An argument that is annotated `int`, where the code also looks for a `bool`.
pub data Scalar : Type 0 where
  int : ℤ → Scalar
  bool : Bool → Scalar
