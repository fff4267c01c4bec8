-- ===== src/Interpol8/Grid.antt =====
-- interpol8/interpol8.go, `Raw`: the times of the points that it produces, and its errors.
use widuino.Base.{ℕ, zero, suc, ◌+◌, ◌-◌, ◌*◌, ◌/◌, ◌^◌, ◌≤◌, ◌<◌, List, [], ◌∷◌, some}
use widuino.Base.{
  ◌≡◌, refl, ap, ap₂, ◌∙◌, inl, inr, arith, Bool-cases, Option-cases, true, false, leb, ltb, drop,
}
use widuino.Base.Outcome.{ok}
use widuino.Interpol8.Point.{
  Floats, RawPoint, Kind, IntPoint, Sum, u64, advance, interval, stretch, at_point,
}
use widuino.Interpol8.Point.{sum_points, and_more, nothing_yet, as_point}
use widuino.Interpol8.{in_order, adjust_end}
use widuino.Interpol8.{make_nans, intervals, put_point, on_trimmed, interpolate, l_trim, r_trim}

-- `n` times from `ts` on.
abbrev pub grid : ℕ → ℕ → ℕ → List ℕ
grid ts step zero = []
grid ts step (suc n) = ts ∷ grid (ts + step) step n

abbrev pub times : {F : Type 0} → List (IntPoint F) → List ℕ
times [] = []
times (p ∷ ps) = p.asof ∷ times ps

module _ {F : Type 0} (fl : Floats F) (kind : Kind) (max_fill : ℕ) where
  -- The switch is complete: its default is never reached.
  stretch-some :
      (ts te : ℕ) (p q : RawPoint F) (s : Sum F)
      → (s' : Sum F) × (stretch fl kind max_fill ts te p q s ≡ some s')
  unfolding stretch
  stretch-some ts te p q s = elim (Option-cases (stretch fl kind max_fill ts te p q s)) [
    | inl none_fits ↦ absurd (ground (arith, none_fits))
    | inr found ↦ found
  ]

  at_point-some :
      (ts te : ℕ) (p : RawPoint F) (raw : List (RawPoint F)) (s : Sum F)
      → (s' : Sum F) × (at_point fl kind max_fill ts te p raw s ≡ some s')
  at_point-some ts te p [] s = (_, refl)
  at_point-some ts te p (q ∷ raw) s = stretch-some ts te p q _

  sum_points-some :
      (ts te n : ℕ) (raw : List (RawPoint F)) (s : Sum F)
      → (s' : Sum F) × (sum_points fl kind max_fill ts te n raw s ≡ some s')
  unfolding sum_points
  sum_points-some ts te zero raw s = (s, refl)
  sum_points-some ts te (suc n) [] s = (s, refl)
  sum_points-some ts te (suc n) (p ∷ raw) s =
      let (s', e) = at_point-some ts te p raw s in
      let (s'', e') = sum_points-some ts te n raw s' in
      (s'', ap (and_more fl (sum_points fl kind max_fill ts te n raw)) e ∙ e')

  as_point-asof :
      (ts te : ℕ) (raw : List (RawPoint F)) (s : Sum F) → (as_point fl kind ts te raw s).asof ≡ ts
  as_point-asof ts te [] s = elim (Bool-cases (fl.less fl.nought s.denom)) [
    | inl some_area ↦ rw some_area
    | inr no_area ↦ rw no_area
  ]
  as_point-asof ts te (p ∷ raw) s = ground arith

  interval-asof :
      (raw : List (RawPoint F)) (step ts a : ℕ)
      → (p : IntPoint F) × ((interval fl kind max_fill raw step ts a).0 ≡ some p) × (p.asof ≡ ts)
  unfolding interval
  interval-asof raw step ts a =
      let te = u64 (ts + step) in
      let a' = advance fl (λ t. ltb t ts) a (drop a raw) in
      let b = advance fl (λ t. leb t te) a' (drop a' raw) in
      let (s, e) = sum_points-some ts te (b - (a' - 1)) (drop (a' - 1) raw) (nothing_yet fl) in
      (as_point fl kind ts te (drop a' raw) s, rw e, as_point-asof ts te (drop a' raw) s)

  pub intervals-go :
      (raw : List (RawPoint F)) (end step n ts a : ℕ)
      → ltb ts end ≡ true
      → intervals fl kind max_fill raw end step (suc n) ts a
        ≡ put_point fl (interval fl kind max_fill raw step ts a).0 (
            intervals fl kind max_fill raw end step n
              (u64 (ts + step))
              (interval fl kind max_fill raw step ts a).1)
  unfolding intervals
  intervals-go raw end step n ts a e = rw e

  intervals-grid :
      (raw : List (RawPoint F)) (end step n ts a : ℕ)
      → 0 < step
      → ts + n * step ≡ end
      → end < 2 ^ 64
      → (ps : List (IntPoint F)) × (intervals fl kind max_fill raw end step n ts a ≡ ok ps)
        × (times ps ≡ grid ts step n)
  unfolding intervals
  intervals-grid raw end step zero ts a hs e small = ([], ground arith, refl)
  intervals-grid raw end step (suc n) ts a hs e small =
      let te : u64 (ts + step) ≡ ts + step = omega arith in
      let a' = (interval fl kind max_fill raw step ts a).1 in
      let (p, one, at) = interval-asof raw step ts a in
      let (ps, rest, t) =
        intervals-grid raw end step n (ts + step) a' hs (omega (arith, e)) small in
      (
        p ∷ ps,
        intervals-go raw end step n ts a (ground (arith, hs, e))
            ∙ ap₂ (put_point fl) one
                (ap (λ t. intervals fl kind max_fill raw end step n t a') te ∙ rest),
        ap₂ (◌∷◌) at t,
      )

make_nans-grid :
    {F : Type 0} (fl : Floats F) (start step i n : ℕ)
    → start + (i + n) * step < 2 ^ 64
    → times (make_nans fl start step i n) ≡ grid (start + i * step) step n
unfolding make_nans
make_nans-grid fl start step i zero small = refl
make_nans-grid fl start step i (suc n) small =
    let e : u64 (start + u64 (i * step)) ≡ start + i * step = omega arith in
    let e' : start + suc i * step ≡ start + i * step + step = omega arith in
    let e'' : suc i + n ≡ i + suc n = omega arith in
    ap₂ (◌∷◌) e (make_nans-grid fl start step (suc i) n (rw e'' small) ∙ ap (λ t. grid t step n) e')

-- The number of points of a request.
abbrev pub count_of : ℕ → ℕ → ℕ → ℕ
count_of start end step = (end - 1 - start) / step + 1

pub adjust_end-fits :
    (start end step : ℕ)
    → start < end
    → 2 ≤ step
    → count_of start end step ≤ 1000000
    → start + count_of start end step * step < 2 ^ 64
    → adjust_end start end step
      ≡ ok (count_of start end step, start + count_of start end step * step)
unfolding adjust_end
adjust_end-fits start end step h hs few small =
    let count = count_of start end step in
    let behind : leb end start ≡ false = ground (arith, h) in
    let c : u64 count ≡ count = omega (arith, few) in
    let cs : u64 (count * step) ≡ count * step = omega (arith, small) in
    let e : u64 (start + count * step) ≡ start + count * step = omega (arith, small) in
    let enough : ltb 1000000 count ≡ false = ground (arith, few) in rw (behind, c, enough, cs, e)

on_trimmed-grid :
    {F : Type 0} (fl : Floats F) (kind : Kind) (max_fill start end step n : ℕ)
    (raw : List (RawPoint F))
    → 0 < step
    → start + n * step ≡ end
    → end < 2 ^ 64
    → (ps : List (IntPoint F)) × (on_trimmed fl kind max_fill start end step n raw ≡ ok ps)
      × (times ps ≡ grid start step n)
on_trimmed-grid fl kind max_fill start end step n [] hs e small =
    let all : 0 + n ≡ n = omega arith in
    let from : start + 0 * step ≡ start = omega arith in
    (
      make_nans fl start step 0 n,
      refl,
      make_nans-grid fl start step 0 n (rw (all, e) small) ∙ ap (λ t. grid t step n) from,
    )
on_trimmed-grid fl kind max_fill start end step n (p ∷ raw) hs e small =
    intervals-grid fl kind max_fill (p ∷ raw) end step n start 0 hs e small

-- A request with an end behind its start, a step of 2 or more that the fill is not below, points in
-- order, at most 1000000 points to produce and an end within 64 bits succeeds, whatever the points
-- and the floats are: it neither panics nor reports the internal error, and the points of the
-- result stand at start, start + step, start + 2 * step and so on, one for each step begun.
pub interpolate-grid :
    {F : Type 0} (fl : Floats F) (raw : List (RawPoint F)) (kind : Kind)
    (start end step max_fill : ℕ)
    → start < end
    → 2 ≤ step
    → step ≤ max_fill
    → in_order raw ≡ true
    → count_of start end step ≤ 1000000
    → start + count_of start end step * step < 2 ^ 64
    → (ps : List (IntPoint F)) × (interpolate fl raw kind start end step max_fill ≡ ok ps)
      × (times ps ≡ grid start step (count_of start end step))
unfolding interpolate
interpolate-grid fl raw kind start end step max_fill h hs hf sorted few small =
    let n = count_of start end step in
    let end' = start + n * step in
    let behind : leb end start ≡ false = ground (arith, h) in
    let wide : ltb step 2 ≡ false = ground (arith, hs) in
    let filled : ltb max_fill step ≡ false = ground (arith, hf) in
    let trimmed = r_trim (l_trim raw start) end' step in
    let (ps, e, t) =
      on_trimmed-grid fl kind max_fill start end' step n trimmed (omega (arith, hs)) refl small in
    (ps, rw (behind, wide, filled, sorted, adjust_end-fits start end step h hs few small, e), t)
