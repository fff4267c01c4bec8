-- ===== src/Interpol8/Point.antt =====
-- interpol8/interpol8.go: the value of one interval.
use widuino.Base.{ℕ, zero, suc, ◌+◌, ◌-◌, ◌%◌, ◌^◌, List, [], ◌∷◌, Option, none, some}
use widuino.Base.{Bool, true, false, not, ◌&&◌, ◌||◌, ltb, leb, ◌==◌, if◌then◌else◌, drop}
use mathlib.Core.Option

-- What the code uses of float64: `of_nat` is the conversion of a uint64, `two` the constant 2.
pub record Floats (F : Type 0) : Type 0 where
  pub nought : F
  pub two : F
  pub nan : F
  pub add : F → F → F
  pub sub : F → F → F
  pub mul : F → F → F
  pub div : F → F → F
  pub of_nat : ℕ → F
  pub less : F → F → Bool
  pub less_eq : F → F → Bool
  pub is_nan : F → Bool

abbrev pub u64 : ℕ → ℕ
u64 n = n % 2 ^ 64

-- `a - b`, which wraps below 0.
abbrev pub sub64 : ℕ → ℕ → ℕ
sub64 a b = if leb b a then a - b else a + 2 ^ 64 - b

pub record RawPoint (F : Type 0) : Type 0 where
  pub asof : ℕ
  pub value : F

pub data Kind : Type 0 where
  absolute rate : Kind

pub record IntPoint (F : Type 0) : Type 0 where
  pub asof : ℕ
  pub avg : F
  pub min : F
  pub max : F

-- The integral, the time that it covers, and the least and greatest value, over one interval.
pub record Sum (F : Type 0) : Type 0 where
  pub num : F
  pub denom : F
  pub min : F
  pub max : F

abbrev is_absolute : Kind → Bool
is_absolute absolute = true
is_absolute rate = false

module _ {F : Type 0} (fl : Floats F) where
  -- The two tests that take a value into the least and the greatest one.
  abbrev pub with_value : F → Sum F → Sum F
  with_value v s = record s {
    min = if fl.is_nan s.min || fl.less v s.min then v else s.min;
    max = if fl.is_nan s.max || fl.less s.max v then v else s.max;
  }

  -- The rate between two points: 0 where it is not set, and NaN for a negative one.
  abbrev pub raw_rate : Kind → RawPoint F → RawPoint F → F
  raw_rate kind p q =
      let r = fl.div (fl.sub q.value p.value) (fl.of_nat (sub64 q.asof p.asof)) in
      if ltb p.asof q.asof && not (is_absolute kind)
      then (if fl.less r fl.nought then fl.nan else r)
      else fl.nought

  -- The value on the line between two points, at a share of the way.
  abbrev pub between : RawPoint F → RawPoint F → F → F
  between p q ratio = fl.add p.value (fl.mul ratio (fl.sub q.value p.value))

  -- A stretch of `dx` from value `a` to value `b`, as the area under it.
  abbrev pub add_area : F → F → F → Sum F → Sum F
  add_area dx a b s = record s { num = fl.add s.num (fl.div (fl.mul dx (fl.add a b)) fl.two) }

  -- A rise from `a` to `b`, or nothing if it is a fall.
  abbrev pub add_rise : F → F → F → Sum F → Sum F
  add_rise r a b s =
      if fl.less_eq a b then with_value r (record s { num = fl.add s.num (fl.sub b a) }) else s

  abbrev pub add_denom : F → Sum F → Sum F
  add_denom dx s = record s { denom = fl.add s.denom dx }

  -- Both points inside the interval.
  abbrev pub both_inside : Kind → RawPoint F → RawPoint F → F → Sum F → Sum F
  both_inside absolute p q r s =
      let dx = fl.of_nat (sub64 q.asof p.asof) in add_area dx q.value p.value (add_denom dx s)
  both_inside rate p q r s =
      add_rise r p.value q.value (add_denom (fl.of_nat (sub64 q.asof p.asof)) s)

  -- The first point before the interval, the second one inside.
  abbrev pub coming_in : Kind → ℕ → RawPoint F → RawPoint F → F → Sum F → Sum F
  coming_in kind ts p q r s =
      let dx = fl.of_nat (sub64 q.asof ts) in
      let iy =
        between p q (fl.div (fl.of_nat (sub64 ts p.asof)) (fl.of_nat (sub64 q.asof p.asof))) in
      if is_absolute kind
      then with_value iy (add_area dx q.value iy (add_denom dx s))
      else add_rise r iy q.value (add_denom dx s)

  -- The first point inside, the second one beyond.
  abbrev pub going_out : Kind → ℕ → RawPoint F → RawPoint F → F → Sum F → Sum F
  going_out kind te p q r s =
      let dx = fl.of_nat (sub64 te p.asof) in
      let iy = between p q (fl.div dx (fl.of_nat (sub64 q.asof p.asof))) in
      if is_absolute kind
      then with_value iy (add_area dx p.value iy (add_denom dx s))
      else add_rise r p.value iy (add_denom dx s)

  -- The interval between the two points; a rate takes the place of what has been summed.
  abbrev pub around : Kind → ℕ → ℕ → RawPoint F → RawPoint F → F → Sum F → Sum F
  around absolute ts te p q r s =
      let dx = fl.of_nat (sub64 te ts) in
      let gap = fl.of_nat (sub64 q.asof p.asof) in
      let iy1 = between p q (fl.div (fl.of_nat (sub64 ts p.asof)) gap) in
      let iy2 = between p q (fl.div (fl.of_nat (sub64 te p.asof)) gap) in
      with_value iy2 (with_value iy1 (add_area dx iy1 iy2 (add_denom dx s)))
  around rate ts te p q r s =
      if fl.less_eq p.value q.value
      then with_value r
          (record s { denom = fl.of_nat (sub64 q.asof p.asof); num = fl.sub q.value p.value })
      else s

  -- The switch over where two points lie; `none` is its default, the internal error.
  unfoldable pub stretch : Kind → ℕ → ℕ → ℕ → RawPoint F → RawPoint F → Sum F → Option (Sum F)
  stretch kind max_fill ts te p q s =
      let r = raw_rate kind p q in
      if q.asof == ts
      then some s
      else if p.asof == te
      then some s
      else if p.asof == q.asof
      then some s
      else if leb ts p.asof && leb q.asof te
      then some (both_inside kind p q r s)
      else if ltb max_fill (sub64 q.asof p.asof)
      then some s
      else if ltb p.asof ts && leb q.asof te
      then some (coming_in kind ts p q r s)
      else if leb ts p.asof && ltb te q.asof
      then some (going_out kind te p q r s)
      else if ltb p.asof ts && ltb te q.asof
      then some (around kind ts te p q r s)
      else none

  -- The body of the loop over x: the point itself, and the stretch to the next one.
  abbrev pub at_point : Kind → ℕ → ℕ → ℕ → RawPoint F → List (RawPoint F) → Sum F → Option (Sum F)
  at_point kind max_fill ts te p rest s =
      let s' =
        if is_absolute kind && (leb ts p.asof && leb p.asof te) then with_value p.value s else s in
      to_next rest s'
    where
      to_next : List (RawPoint F) → Sum F → Option (Sum F)
      to_next [] s = some s
      to_next (q ∷ rest) s = stretch kind max_fill ts te p q s

  abbrev pub and_more : (Sum F → Option (Sum F)) → Option (Sum F) → Option (Sum F)
  and_more more none = none
  and_more more (some s) = more s

  -- `n` rounds of the loop over x, on the points from its first one on.
  unfoldable pub sum_points : Kind → ℕ → ℕ → ℕ → ℕ → List (RawPoint F) → Sum F → Option (Sum F)
  sum_points kind max_fill ts te zero raw s = some s
  sum_points kind max_fill ts te (suc n) [] s = some s
  sum_points kind max_fill ts te (suc n) (p ∷ raw) s =
      and_more (sum_points kind max_fill ts te n raw) (at_point kind max_fill ts te p raw s)

  -- How far an index goes on while the test holds; `a` is the index of the first of the points.
  unfoldable pub advance : (ℕ → Bool) → ℕ → List (RawPoint F) → ℕ
  advance test a [] = a
  advance test a (p ∷ raw) = let rest = advance test (suc a) raw in if test p.asof then rest else a

  abbrev pub nothing_yet : Sum F
  nothing_yet = record { num = fl.nought; denom = fl.nought; min = fl.nan; max = fl.nan }

  abbrev pub nan_point : ℕ → IntPoint F
  nan_point ts = record { asof = ts; avg = fl.nan; min = fl.nan; max = fl.nan }

  -- The value where nothing was covered: the one data point of the interval, if there is one.
  abbrev pub lone_point : Kind → ℕ → ℕ → List (RawPoint F) → IntPoint F
  lone_point kind ts te [] = nan_point ts
  lone_point kind ts te (p ∷ raw) =
      if is_absolute kind && (leb ts p.asof && ltb p.asof te)
      then record { asof = ts; avg = p.value; min = p.value; max = p.value }
      else nan_point ts

  abbrev pub as_point : Kind → ℕ → ℕ → List (RawPoint F) → Sum F → IntPoint F
  as_point kind ts te raw s =
      if fl.less fl.nought s.denom
      then record { asof = ts; avg = fl.div s.num s.denom; min = s.min; max = s.max }
      else lone_point kind ts te raw

  -- One round of the loop over the intervals. `a` is i + 1, the number of points before the last
  -- interval; the new one comes back with the result.
  unfoldable pub interval : Kind → ℕ → List (RawPoint F) → ℕ → ℕ → ℕ → Option (IntPoint F) × ℕ
  interval kind max_fill raw step ts a =
      let te = u64 (ts + step) in
      let a' = advance (λ t. ltb t ts) a (drop a raw) in
      let b = advance (λ t. leb t te) a' (drop a' raw) in
      let first = a' - 1 in
      (
        Option.map (as_point kind ts te (drop a' raw))
            (sum_points kind max_fill ts te (b - first) (drop first raw) nothing_yet),
        a',
      )
