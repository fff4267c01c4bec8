-- ===== src/TimeRange/Tests.antt =====
-- A range of three values, over the floats of the tests of the interpolation.
use widuino.Base.{ℕ, List, [], ◌∷◌, ◌++◌, Option, none, some, true, ◌≡◌, refl, arith}
use widuino.Base.Decimal.{low_digits, digit_count, decimal}
use widuino.Interpol8.{in_order}
use widuino.Interpol8.Grid.{grid, count_of}
use widuino.Interpol8.Tests.{numbers}
use widuino.TimeRange.{
  Params, PointOrNan, range_tag, sync_tag, raw_point, raw_points, parse_uint, time_range,
}
use widuino.TimeRange.Laws.{entries_of, points, sent_times, time_range-sends}

-- The text of a value is one character, its number.
abbrev text_float : List ℕ → Option (Option ℕ)
text_float [] = none
text_float (c ∷ v) = some (some c)

abbrev stored : List (ℕ × List ℕ)
stored = (90, 1 ∷ []) ∷ (100, 10 ∷ []) ∷ (110, 20 ∷ []) ∷ (130, 5 ∷ []) ∷ []

abbrev request : Params
request = record { key = b'k' ∷ []; start = 100; end = 125; step = 10 }

abbrev database : List ℕ → List ℕ → List (List ℕ × List ℕ)
database from to = entries_of numbers text_float (b'k' ∷ []) stored

sorted :
    in_order
      (raw_points numbers text_float request (entries_of numbers text_float (b'k' ∷ []) stored))
    ≡ true
unfolding raw_points raw_point parse_uint decimal low_digits digit_count
sorted = refl

time_range-sends_example :
    (ds : List (PointOrNan (Option ℕ))) × (time_range numbers text_float database
        (λ n. true)
        request
      ≡ some (range_tag (b'k' ∷ []) ∷ (points numbers text_float ds ++ (sync_tag ∷ []))))
    × (sent_times numbers text_float ds ≡ grid 100 10 (count_of 100 125 10))
time_range-sends_example =
    time_range-sends numbers text_float database (λ n. true) request (omega arith) (omega arith)
      (omega arith) (omega arith) (omega arith) refl sorted
