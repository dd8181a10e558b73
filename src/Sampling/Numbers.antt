-- ===== src/Sampling/Numbers.antt =====
-- What the sampler does with floating point numbers, and the laws that its results rely on.
use zinfer_lm.Base.{◌≡◌, Bool, true, false}

-- The operations of samplers.cpp: `<`, whether a value is NaN, 0, minus infinity, `-`, `/` and `std::exp` on `float`; the test
-- `<= 0.0f`; `+=` of a `float` to a `double`, `/=` of a `float` by a `double`, and `>=` on `double`.
pub record Floats {ℓ} (F : Type ℓ) : Type ℓ where
  pub lt : F → F → Bool
  pub is_nan : F → Bool
  pub zero : F
  pub minus_infinity : F
  pub sub : F → F → F
  pub div : F → F → F
  pub exp : F → F
  pub not_positive : F → Bool
  pub add : F → F → F
  pub scale : F → F → F
  pub reaches : F → F → Bool

-- The order laws of `<` away from NaN; `number` says what is none.
pub record IsOrdered {ℓ} (F : Type ℓ) ⦃fl : Floats F⦄ (number : F → Type 0) : Type ℓ where
  pub not_nan : (x : F) → number x → fl.is_nan x ≡ false
  pub lt_irrefl : (x : F) → number x → fl.lt x x ≡ false
  pub lt_trans :
      (x y z : F)
      → number x
      → number y
      → number z
      → fl.lt x y ≡ true
      → fl.lt y z ≡ true
      → fl.lt x z ≡ true
  pub lt_of_not_lt :
      (x y z : F)
      → number x
      → number y
      → number z
      → fl.lt x y ≡ false
      → fl.lt x z ≡ true
      → fl.lt y z ≡ true
