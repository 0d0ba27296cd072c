-- ===== src/Base/Int.antt =====
-- Signed integers: the value of a C `int`, as a comparison callback returns it.
use Prim.Native.Nat.{ℕ, zero, suc}
use mathlib.Core.Bool.{Bool, true, false}
use mathlib.Core.Path.{◌≡◌, refl}
use native.Mathlib.Omega.{arith}
use mathlib.Core.Logic.{◌⊎◌, inl, inr}

-- `negsuc n` is -(n + 1).
pub data ℤ : Type 0 where
  pos : ℕ → ℤ
  negsuc : ℕ → ℤ

-- v < 0
abbrev pub is_neg : ℤ → Bool
is_neg (pos n) = false
is_neg (negsuc n) = true

-- v > 0
abbrev pub is_pos : ℤ → Bool
is_pos (pos zero) = false
is_pos (pos (suc n)) = true
is_pos (negsuc n) = false

-- v == 0
abbrev pub is_zero : ℤ → Bool
is_zero (pos zero) = true
is_zero (pos (suc n)) = false
is_zero (negsuc n) = false

pub sign-cases :
    (v : ℤ)
    → (is_zero v ≡ true)
      ⊎ ((is_zero v ≡ false) × (is_neg v ≡ true))
      ⊎ ((is_zero v ≡ false) × (is_neg v ≡ false) × (is_pos v ≡ true))
sign-cases (pos zero) = inl refl
sign-cases (pos (suc n)) = inr (inr (refl, refl, refl))
sign-cases (negsuc n) = inr (inl (refl, refl))

pub neg-nonzero : (v : ℤ) → is_neg v ≡ true → is_zero v ≡ false
neg-nonzero (pos n) h = absurd (ground arith)
neg-nonzero (negsuc n) h = refl

pub pos-nonzero : (v : ℤ) → is_pos v ≡ true → is_zero v ≡ false
pos-nonzero (pos zero) h = absurd (ground arith)
pos-nonzero (pos (suc n)) h = refl
pos-nonzero (negsuc n) h = refl

pub zero-nonneg : (v : ℤ) → is_zero v ≡ true → is_neg v ≡ false
zero-nonneg (pos n) h = refl
zero-nonneg (negsuc n) h = absurd (ground arith)
