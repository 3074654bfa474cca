-- ===== src/Prelude/Float.antt =====
-- Python's floats: the operations that the rates use are a parameter, since binary rounding is not
-- part of the repository. `FloatLaws` names what the theorems that need it assume of the rounding.
use Prim.Native.Nat.{ℕ, ◌≤◌, ◌<◌}
use mathlib.Core.Path.{◌≡◌}
use mathlib.Core.Bool.{Bool, true, false}

pub record Float (F : Type 0) : Type 0 where
  pub zero_float : F
  pub hundred : F
  -- `a / b` of two ints
  pub ratio : ℕ → ℕ → F
  pub times : F → F → F
  pub minus : F → F → F
  pub le_float : F → F → Bool
  pub lt_float : F → F → Bool

-- Correct rounding is monotone, and is exact where the result is representable.
pub record FloatLaws {F : Type 0} (fl : Float F) : Type 0 where
  pub le_float_trans :
      (a b c : F) → fl.le_float a b ≡ true → fl.le_float b c ≡ true → fl.le_float a c ≡ true
  -- both operands of a test that holds are numbers
  pub lt_not_le : (a b : F) → fl.lt_float a b ≡ true → fl.le_float b a ≡ false
  pub ratio_mono : (f g n : ℕ) → f ≤ g → fl.le_float (fl.ratio f n) (fl.ratio g n) ≡ true
  pub times_mono :
      (a b : F)
      → fl.le_float a b ≡ true
      → fl.le_float (fl.times a fl.hundred) (fl.times b fl.hundred) ≡ true
  pub ratio_none : (n : ℕ) → 0 < n → fl.times (fl.ratio 0 n) fl.hundred ≡ fl.zero_float
  pub ratio_all : (n : ℕ) → 0 < n → fl.times (fl.ratio n n) fl.hundred ≡ fl.hundred
