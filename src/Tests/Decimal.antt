-- ===== src/Tests/Decimal.antt =====
-- Floats for the runs: whole numbers, with three decimal digits kept in a ratio, rounded down.
use native.Mathlib.Nat.{
  le_trans, div-zero, zero-div, zero-lt-suc, le-div_iff_mul-le, div-mul-le_self,
  mul-div_cancel_left,
}
use resilience4py.Prelude.{ℕ, zero, suc, ap, ◌*◌, ◌-◌, ◌/◌, ◌≤◌, arith, leb, ltb, le→leb}
use resilience4py.Prelude.Float.{Float, FloatLaws}

div_mono : (a b n : ℕ) → a ≤ b → a / n ≤ b / n
div_mono a b zero le = omega (arith, div-zero a, div-zero b)
div_mono a b (suc n) le =
    (le-div_iff_mul-le (zero-lt-suc n)).1 (le_trans (div-mul-le_self a (suc n)) le)

instance abbrev pub decimal_float : Float ℕ
decimal_float = record {
  zero_float = 0;
  hundred = 100;
  ratio = λ f n. f * 1000 / n;
  times = λ a b. a * b / 1000;
  minus = ◌-◌;
  le_float = leb;
  lt_float = ltb;
}

pub decimal_laws : FloatLaws decimal_float
decimal_laws = record {
  le_float_trans = λ a b c h k. ground arith;
  lt_not_le = λ a b h. ground (arith, h);
  ratio_mono = λ f g n le. le→leb _ _ (div_mono (f * 1000) (g * 1000) n (omega arith));
  times_mono = λ a b le. le→leb _ _ (div_mono (a * 100) (b * 100) 1000 (ground arith));
  ratio_none = λ n pos. ap (λ x. x * 100 / 1000) (zero-div n);
  ratio_all = λ n pos. ap (λ x. x * 100 / 1000) (mul-div_cancel_left 1000 pos);
}
