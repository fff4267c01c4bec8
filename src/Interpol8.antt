-- ===== src/Interpol8.antt =====
-- interpol8/interpol8.go: interpolation of a time series at even steps. A float64 and its operations
-- are an argument; a uint64 is a number, with its wrap-around written out.
pub mod Point
pub mod Grid
pub mod TrimLeft
pub mod TrimRight
pub mod Trim
pub mod Tests
use widuino.Base.{
  ℕ, zero, suc, ◌+◌, ◌-◌, ◌*◌, ◌/◌, ◌%◌, ◌^◌, List, [], ◌∷◌, ◌++◌, Option, none, some,
}
use widuino.Base.{
  Bool, true, false, not, ltb, leb, ◌==◌, if◌then◌else◌, length, get_elem?, take, replicate,
}
use widuino.Base.Outcome.{Outcome, ok, err, panic, ◌>>=◌}
use Point.{Floats, RawPoint, Kind, IntPoint, u64, advance, interval, nan_point}
use mathlib.Core.Option

pub data RawError : Type 0 where
  end_before_start small_step small_fill not_sorted too_many internal : RawError

abbrev pub in_order : {F : Type 0} → List (RawPoint F) → Bool
in_order [] = true
in_order (p ∷ []) = true
in_order (p ∷ q ∷ raw) = let rest = in_order (q ∷ raw) in if ltb q.asof p.asof then false else rest

-- The number of points to produce, and the end that they reach.
unfoldable pub adjust_end : ℕ → ℕ → ℕ → Outcome RawError (ℕ × ℕ)
adjust_end start end step =
    let count = u64 ((end - 1 - start) / step + 1) in
    if leb end start
    then err end_before_start
    else if ltb 1000000 count
    then err too_many
    else ok (count, u64 (start + u64 (count * step)))

-- From the point before the first one behind the start on; `none` if no point is behind it.
abbrev pub from_start : {F : Type 0} → ℕ → List (RawPoint F) → Option (List (RawPoint F))
from_start start (p ∷ q ∷ raw) =
    let rest = from_start start (q ∷ raw) in if ltb start q.asof then some (p ∷ q ∷ raw) else rest
from_start start _ = none

unfoldable pub l_trim : {F : Type 0} → List (RawPoint F) → ℕ → List (RawPoint F)
l_trim raw start = Option.get_or (from_start start raw) raw

abbrev pub lies_before : {F : Type 0} → ℕ → Option (RawPoint F) → Bool
lies_before limit none = false
lies_before limit (some p) = ltb p.asof limit

-- The points up to and with the one behind the last that lies before the limit; the index of the
-- test starts at `i` and stops at 1.
abbrev pub to_limit : {F : Type 0} → List (RawPoint F) → ℕ → ℕ → List (RawPoint F)
to_limit raw limit zero = raw
to_limit raw limit (suc i) =
    let lower = to_limit raw limit i in
    if lies_before limit (get_elem? raw (suc i)) then take (suc i + 2) raw else lower

unfoldable pub r_trim : {F : Type 0} → List (RawPoint F) → ℕ → ℕ → List (RawPoint F)
r_trim raw end step = to_limit raw (u64 (end + step)) (length raw - 2)

module _ {F : Type 0} (fl : Floats F) where
  -- The points of a result with nothing to interpolate: `count` of them from `ts` on.
  unfoldable pub make_nans : ℕ → ℕ → ℕ → ℕ → List (IntPoint F)
  make_nans start step i zero = []
  make_nans start step i (suc count) =
      nan_point fl (u64 (start + u64 (i * step))) ∷ make_nans start step (suc i) count

  -- A cell of the result that is never written.
  abbrev pub blank_point : IntPoint F
  blank_point = record { asof = 0; avg = fl.nought; min = fl.nought; max = fl.nought }

  abbrev pub put_point :
      Option (IntPoint F)
      → Outcome RawError (List (IntPoint F))
      → Outcome RawError (List (IntPoint F))
  put_point none rest = err internal
  put_point (some p) rest = do ps ← rest; ok (p ∷ ps)

  -- The loop over the intervals, with `n` cells of the result to go; a write behind the last one
  -- panics.
  unfoldable pub intervals :
      Kind → ℕ → List (RawPoint F) → ℕ → ℕ → ℕ → ℕ → ℕ → Outcome RawError (List (IntPoint F))
  intervals kind max_fill raw end step zero ts a = if ltb ts end then panic else ok []
  intervals kind max_fill raw end step (suc n) ts a =
      let (p, a') = interval fl kind max_fill raw step ts a in
      let rest = intervals kind max_fill raw end step n (u64 (ts + step)) a' in
      if ltb ts end then put_point p rest else ok (replicate (suc n) blank_point)

  abbrev pub on_trimmed :
      Kind → ℕ → ℕ → ℕ → ℕ → ℕ → List (RawPoint F) → Outcome RawError (List (IntPoint F))
  on_trimmed kind max_fill start end step count [] = ok (make_nans start step 0 count)
  on_trimmed kind max_fill start end step count (p ∷ raw) =
      intervals kind max_fill (p ∷ raw) end step count start 0

  unfoldable pub interpolate :
      List (RawPoint F) → Kind → ℕ → ℕ → ℕ → ℕ → Outcome RawError (List (IntPoint F))
  interpolate raw kind start end step max_fill =
      if leb end start
      then err end_before_start
      else if ltb step 2
      then err small_step
      else if ltb max_fill step
      then err small_fill
      else if not (in_order raw)
      then err not_sorted
      else (do
        (count, end') ← adjust_end start end step
        on_trimmed kind max_fill start end' step count (r_trim (l_trim raw start) end' step))
