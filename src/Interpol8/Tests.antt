-- ===== src/Interpol8/Tests.antt =====
-- Interpolation of a small series, over floats that are natural numbers or not a number.
use widuino.Base.{ℕ, zero, suc, ◌+◌, ◌-◌, ◌*◌, ◌/◌, List, [], ◌∷◌, Option, none, some}
use widuino.Base.{◌≡◌, refl, arith, Bool, true, false, ltb, leb}
use widuino.Base.Outcome.{ok}
use widuino.Interpol8.Point.{
  Floats, RawPoint, IntPoint, absolute, interval, advance, sum_points, stretch,
}
use widuino.Interpol8.{interpolate, adjust_end, l_trim, r_trim, intervals}
use widuino.Interpol8.Grid.{grid, times, count_of, interpolate-grid}
use widuino.Interpol8.Trim.{interpolate-all_points}

abbrev on_both : (ℕ → ℕ → ℕ) → Option ℕ → Option ℕ → Option ℕ
on_both f (some a) (some b) = some (f a b)
on_both f a b = none

abbrev compared : (ℕ → ℕ → Bool) → Option ℕ → Option ℕ → Bool
compared f (some a) (some b) = f a b
compared f a b = false

abbrev divided : ℕ → ℕ → ℕ
divided a zero = 0
divided a (suc b) = a / suc b

abbrev number_is_nan : Option ℕ → Bool
number_is_nan none = true
number_is_nan (some a) = false

abbrev pub numbers : Floats (Option ℕ)
numbers = record {
  nought = some 0;
  two = some 2;
  nan = none;
  add = on_both (λ a b. a + b);
  sub = on_both (λ a b. a - b);
  mul = on_both (λ a b. a * b);
  div = on_both divided;
  of_nat = λ n. some n;
  less = compared ltb;
  less_eq = compared leb;
  is_nan = number_is_nan;
}

abbrev series : List (RawPoint (Option ℕ))
series =
    record { asof = 100; value = some 10 }
    ∷ record { asof = 110; value = some 20 }
    ∷ record { asof = 200; value = some 7 }
    ∷ []

interpolate-grid_example :
    (ps : List (IntPoint (Option ℕ))) × (interpolate numbers series absolute 100 125 10 30 ≡ ok ps)
    × (times ps ≡ grid 100 10 (count_of 100 125 10))
interpolate-grid_example =
    interpolate-grid numbers series absolute 100 125 10 30 (omega arith) (omega arith) (omega arith)
      refl (omega arith) (omega arith)

first_value :
    interpolate numbers series absolute 100 105 10 30
    ≡ ok (record { asof = 100; avg = some 15; min = some 10; max = some 20 } ∷ [])
unfolding interpolate adjust_end l_trim r_trim intervals interval advance sum_points stretch
first_value = refl

interpolate-all_points_example :
    interpolate numbers series absolute 100 125 10 30
    ≡ intervals numbers absolute 30 series
        (100 + count_of 100 125 10 * 10)
        10
        (count_of 100 125 10)
        100
        0
interpolate-all_points_example =
    interpolate-all_points numbers (record { asof = 100; value = some 10 })
      (record { asof = 110; value = some 20 } ∷ record { asof = 200; value = some 7 } ∷ []) absolute
      100 125 10 30 (omega arith) (omega arith) (omega arith) (omega arith, (omega arith, tt))
      (omega arith) (omega arith)
