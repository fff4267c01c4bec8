-- ===== src/TimeRange.antt =====
-- OLD/flow/gadgets/time_range.go: the values of a key over a range of time, interpolated. The database
-- and the parser of floats are arguments; log output is left out.
pub mod Laws
mod Tests
use widuino.Base.{ℕ, ◌+◌, ◌-◌, ◌*◌, ◌/◌, ◌%◌, ◌^◌, List, [], ◌∷◌, ◌++◌, Option, none, some}
use widuino.Base.{Bool, true, false, not, ◌&&◌, ◌||◌, ◌==◌, ltb, leb, if◌then◌else◌}
use widuino.Base.Decimal.{decimal, number}
use widuino.Base.Outcome.{Outcome, ok, err, panic}
use widuino.Interpol8.Point.{Floats, RawPoint, Kind, absolute, IntPoint, u64, sub64}
use widuino.Interpol8.{RawError, interpolate}
use mathlib.Core.Option

pub record Params : Type 0 where
  pub key : List ℕ
  pub start : ℕ
  pub end : ℕ
  pub step : ℕ

-- A point in JSON: NaN as null.
pub record PointOrNan (F : Type 0) : Type 0 where
  pub asof : ℕ
  pub avg : Option F
  pub min : Option F
  pub max : Option F

-- What goes out: the two tags and the points.
pub data Sent (F : Type 0) : Type 0 where
  range_tag : List ℕ → Sent F
  point : PointOrNan F → Sent F
  sync_tag : Sent F

-- What follows a prefix.
abbrev pub trim_prefix : List ℕ → List ℕ → Option (List ℕ)
trim_prefix [] s = some s
trim_prefix (c ∷ prefix) [] = none
trim_prefix (c ∷ prefix) (d ∷ s) = let rest = trim_prefix prefix s in if c == d then rest else none

abbrev pub within_64_bits : Option ℕ → Option ℕ
within_64_bits none = none
within_64_bits (some n) = if ltb n (2 ^ 64) then some n else none

-- strconv.ParseUint in base 10 at 64 bits.
unfoldable pub parse_uint : List ℕ → Option ℕ
parse_uint t = within_64_bits (number t)

-- The keys between which the database is read.
abbrev pub db_key : List ℕ → ℕ → List ℕ
db_key key time = key ++ (b'/' ∷ decimal time)

module _ {F : Type 0} (fl : Floats F) (parse_float : List ℕ → Option F) where
  abbrev pub point_at : ℕ → Option F → Option (RawPoint F)
  point_at time none = none
  point_at time (some val) = some (record { asof = time; value = val })

  abbrev pub at_time : ℕ → ℕ → List ℕ → Option ℕ → Option (RawPoint F)
  at_time start end v none = none
  at_time start end v (some time) =
      let p = point_at time (parse_float v) in if ltb time start || ltb end time then none else p

  abbrev pub of_suffix : ℕ → ℕ → List ℕ → Option (List ℕ) → Option (RawPoint F)
  of_suffix start end v none = none
  of_suffix start end v (some t) = at_time start end v (parse_uint t)

  -- The callback: the point of an entry, if it is one.
  unfoldable pub raw_point : Params → List ℕ × List ℕ → Option (RawPoint F)
  raw_point params (k, v) =
      of_suffix params.start params.end v (trim_prefix (params.key ++ (b'/' ∷ [])) k)

  abbrev pub and_point : Option (RawPoint F) → List (RawPoint F) → List (RawPoint F)
  and_point none raw = raw
  and_point (some p) raw = p ∷ raw

  unfoldable pub raw_points : Params → List (List ℕ × List ℕ) → List (RawPoint F)
  raw_points params [] = []
  raw_points params (e ∷ entries) = and_point (raw_point params e) (raw_points params entries)

  -- If the average is NaN, the others are.
  abbrev pub or_null : IntPoint F → PointOrNan F
  or_null d =
      if fl.is_nan d.avg
      then record { asof = d.asof; avg = none; min = none; max = none }
      else record { asof = d.asof; avg = some d.avg; min = some d.min; max = some d.max }

  unfoldable pub data_hack : List (IntPoint F) → List (Sent F)
  data_hack [] = sync_tag ∷ []
  data_hack (d ∷ ds) = point (or_null d) ∷ data_hack ds

  abbrev pub sent_of : List ℕ → Outcome RawError (List (IntPoint F)) → Option (List (Sent F))
  sent_of key (ok ds) = some (range_tag key ∷ data_hack ds)
  sent_of key (err e) = some []
  sent_of key panic = none

  -- `entries` are what the database holds between two keys, in its order; `room` says for which
  -- capacities a slice can be made. `none` is a panic.
  unfoldable pub time_range :
      (List ℕ → List ℕ → List (List ℕ × List ℕ)) → (ℕ → Bool) → Params → Option (List (Sent F))
  time_range entries room params =
      let count = (params.end - params.start) / params.step in
      let found =
        entries (db_key params.key (sub64 params.start params.step))
          (db_key params.key (u64 (params.end + params.step))) in
      if leb params.end params.start
      then some []
      else if ltb params.step 2
      then some []
      else if not (room count)
      then none
      else sent_of params.key (
          interpolate fl (raw_points params found) absolute params.start params.end params.step
            (u64 (4 * params.step)))
