-- ===== src/Interpol8/TrimLeft.antt =====
-- interpol8/interpol8.go, `lTrim`: what it drops changes nothing.
use widuino.Base.{ℕ, zero, suc, ◌+◌, ◌-◌, ◌*◌, ◌^◌, ◌≤◌, ◌<◌, List, [], ◌∷◌, Option, some}
use widuino.Base.{
  ◌≡◌, refl, sym, ap, ap₂, ◌∙◌, inl, inr, arith, Bool-cases, Option-cases, Bool, true, leb, ltb,
  drop,
}
use widuino.Interpol8.Point.{
  Floats, RawPoint, Kind, IntPoint, Sum, u64, advance, interval, stretch, at_point,
}
use widuino.Interpol8.Point.{sum_points, and_more, nothing_yet, as_point}
use widuino.Interpol8.{intervals, put_point, from_start, l_trim}
use widuino.Interpol8.Grid.{intervals-go}
use mathlib.Core.Option

-- In the order of their times, with no two points at one time.
abbrev pub IsAscending : {F : Type 0} → List (RawPoint F) → Type 0
IsAscending [] = Unit
IsAscending (p ∷ []) = Unit
IsAscending (p ∷ q ∷ raw) = (p.asof < q.asof) × IsAscending (q ∷ raw)

module _ {F : Type 0} (fl : Floats F) where
  advance-suc :
      (test : ℕ → Bool) (a : ℕ) (raw : List (RawPoint F))
      → advance fl test (suc a) raw ≡ suc (advance fl test a raw)
  unfolding advance
  advance-suc test a [] = refl
  advance-suc test a (p ∷ raw) = elim (Bool-cases (test p.asof)) [
    | inl on ↦ rw on (advance-suc test (suc a) raw)
    | inr off ↦ rw off refl
  ]

  advance_ge : (test : ℕ → Bool) (a : ℕ) (raw : List (RawPoint F)) → a ≤ advance fl test a raw
  unfolding advance
  advance_ge test a [] = omega arith
  advance_ge test a (p ∷ raw) = elim (Bool-cases (test p.asof)) [
    | inl on ↦ rw on (omega (arith, advance_ge test (suc a) raw))
    | inr off ↦ rw off (omega arith)
  ]

  -- An index that is still 0 has found the first point at the start of the interval or behind it.
  at_start :
      (ts a : ℕ) (p : RawPoint F) (raw : List (RawPoint F))
      → p.asof ≤ ts
      → advance fl (λ t. ltb t ts) a (drop a (p ∷ raw)) ≡ 0
      → p.asof ≡ ts
  unfolding advance
  at_start ts zero p raw h e = elim (Bool-cases (ltb p.asof ts)) [
    | inl on ↦ absurd (omega (arith, advance_ge (λ t. ltb t ts) 1 raw, (rw on at e)))
    | inr off ↦ ground (arith, off, h)
  ]
  at_start ts (suc a) p raw h e =
      absurd (omega (arith, advance_ge (λ t. ltb t ts) (suc a) (drop a raw), e))

  module _ (kind : Kind) (max_fill : ℕ) where
    -- A point before the interval whose next one is no later than its start adds nothing.
    at_point-before :
        (ts te : ℕ) (l p : RawPoint F) (raw : List (RawPoint F)) (s : Sum F)
        → l.asof < ts
        → p.asof ≡ ts
        → at_point fl kind max_fill ts te l (p ∷ raw) s ≡ some s
    unfolding stretch
    at_point-before ts te l p raw s h e = ground (arith, h, e)

    -- What `interval` computes from the two indices that it finds.
    abbrev pub value_at : List (RawPoint F) → ℕ → ℕ → ℕ → ℕ → Option (IntPoint F)
    value_at raw ts te a b =
        Option.map (as_point fl kind ts te (drop a raw))
          (sum_points fl kind max_fill ts te (b - (a - 1)) (drop (a - 1) raw) (nothing_yet fl))

    value_at-behind :
        (l p : RawPoint F) (raw : List (RawPoint F)) (ts te a b : ℕ)
        → l.asof < ts
        → (a ≡ 0 → p.asof ≡ ts)
        → value_at (l ∷ p ∷ raw) ts te (suc a) (suc b) ≡ value_at (p ∷ raw) ts te a b
    unfolding sum_points
    value_at-behind l p raw ts te zero b h at =
        let first : suc 0 - 1 ≡ 0 = omega arith in
        let first' : 0 - 1 ≡ 0 = omega arith in
        let all : suc b - 0 ≡ suc b = omega arith in
        let all' : b - 0 ≡ b = omega arith in
        rw (first, first', all, all')
          (ap
            (λ o.
              Option.map (as_point fl kind ts te (p ∷ raw))
                (and_more fl (sum_points fl kind max_fill ts te b (p ∷ raw)) o))
            (at_point-before ts te l p raw (nothing_yet fl) h (at refl)))
    value_at-behind l p raw ts te (suc a) b h at =
        let first : suc (suc a) - 1 ≡ suc a = omega arith in
        let first' : suc a - 1 ≡ a = omega arith in
        let all : suc b - suc a ≡ b - a = omega arith in rw (first, first', all) refl

    interval-behind :
        (l p : RawPoint F) (raw : List (RawPoint F)) (step ts a : ℕ)
        → l.asof < ts
        → p.asof ≤ ts
        → interval fl kind max_fill (l ∷ p ∷ raw) step ts (suc a) ≡ (
          (interval fl kind max_fill (p ∷ raw) step ts a).0,
          suc (interval fl kind max_fill (p ∷ raw) step ts a).1,
        )
    unfolding interval
    interval-behind l p raw step ts a h hp =
        let te = u64 (ts + step) in
        let i = advance fl (λ t. ltb t ts) a (drop a (p ∷ raw)) in
        let j = advance fl (λ t. leb t te) i (drop i (p ∷ raw)) in
        let up : advance fl (λ t. ltb t ts) (suc a) (drop a (p ∷ raw)) ≡ suc i =
          advance-suc (λ t. ltb t ts) a (drop a (p ∷ raw)) in
        rw (up, advance-suc (λ t. leb t te) i (drop i (p ∷ raw)))
          (ap (λ v. (v, suc i)) (value_at-behind l p raw ts te i j h (at_start ts a p raw hp)))

    interval-from_first :
        (l : RawPoint F) (raw : List (RawPoint F)) (step ts : ℕ)
        → l.asof < ts
        → interval fl kind max_fill (l ∷ raw) step ts 0
          ≡ interval fl kind max_fill (l ∷ raw) step ts 1
    unfolding interval advance
    interval-from_first l raw step ts h =
        let on : ltb l.asof ts ≡ true = ground (arith, h) in rw on refl

    intervals-behind :
        (l p : RawPoint F) (raw : List (RawPoint F)) (end step n ts a : ℕ)
        → l.asof < ts
        → p.asof ≤ ts
        → 0 < step
        → ts + n * step ≡ end
        → end < 2 ^ 64
        → intervals fl kind max_fill (l ∷ p ∷ raw) end step n ts (suc a)
          ≡ intervals fl kind max_fill (p ∷ raw) end step n ts a
    unfolding intervals
    intervals-behind l p raw end step zero ts a h hp hs e small = refl
    intervals-behind l p raw end step (suc n) ts a h hp hs e small =
        let te : u64 (ts + step) ≡ ts + step = omega arith in
        let on : ltb ts end ≡ true = ground (arith, hs, e) in
        let r = interval fl kind max_fill (p ∷ raw) step ts a in
        let one = interval-behind l p raw step ts a h hp in
        let rest =
          intervals-behind l p raw end step n (ts + step) r.1 (omega (arith, h)) (omega (arith, hp))
            hs (omega (arith, e)) small in
        intervals-go fl kind max_fill (l ∷ p ∷ raw) end step n ts (suc a) on
        ∙ ap₂ (put_point fl) (ap (λ x. x.0) one) (
            ap₂ (intervals fl kind max_fill (l ∷ p ∷ raw) end step n) te (ap (λ x. x.1) one)
            ∙ rest
            ∙ ap (λ t. intervals fl kind max_fill (p ∷ raw) end step n t r.1) (sym te))
        ∙ sym (intervals-go fl kind max_fill (p ∷ raw) end step n ts a on)

    -- A first point that lies before the start, with a second one no later than it.
    intervals-dropped :
        (l p : RawPoint F) (raw : List (RawPoint F)) (end step n ts : ℕ)
        → l.asof < ts
        → p.asof ≤ ts
        → 0 < step
        → ts + n * step ≡ end
        → end < 2 ^ 64
        → intervals fl kind max_fill (l ∷ p ∷ raw) end step n ts 0
          ≡ intervals fl kind max_fill (p ∷ raw) end step n ts 0
    unfolding intervals
    intervals-dropped l p raw end step zero ts h hp hs e small = refl
    intervals-dropped l p raw end step (suc n) ts h hp hs e small =
        let on : ltb ts end ≡ true = ground (arith, hs, e) in
        intervals-go fl kind max_fill (l ∷ p ∷ raw) end step n ts 0 on
        ∙ ap
            (λ r.
              put_point fl r.0
                (intervals fl kind max_fill (l ∷ p ∷ raw) end step n (u64 (ts + step)) r.1))
            (interval-from_first l (p ∷ raw) step ts h)
        ∙ sym (intervals-go fl kind max_fill (l ∷ p ∷ raw) end step n ts 1 on)
        ∙ intervals-behind l p raw end step (suc n) ts 0 h hp hs e small

    from_start-intervals :
        (raw kept : List (RawPoint F)) (end step n start : ℕ)
        → IsAscending raw
        → 0 < step
        → start + n * step ≡ end
        → end < 2 ^ 64
        → from_start start raw ≡ some kept
        → intervals fl kind max_fill raw end step n start 0
          ≡ intervals fl kind max_fill kept end step n start 0
    from_start-intervals [] kept end step n start v hs e small found = cc
    from_start-intervals (p ∷ []) kept end step n start v hs e small found = cc
    from_start-intervals (p ∷ q ∷ raw) kept end step n start v hs e small found =
        elim (Bool-cases (ltb start q.asof)) [
          | inl behind ↦
              let same : p ∷ q ∷ raw ≡ kept = cc (rw behind at found) in
              ap (λ r. intervals fl kind max_fill r end step n start 0) same
          | inr before ↦
              let low : q.asof ≤ start = ground (arith, before) in
              intervals-dropped p q raw end step n start (omega (arith, v.0, low)) low hs e small
              ∙ from_start-intervals (q ∷ raw) kept end step n start v.1 hs e small
                  (rw before at found)
        ]

    pub l_trim-intervals :
        (raw : List (RawPoint F)) (end step n start : ℕ)
        → IsAscending raw
        → 0 < step
        → start + n * step ≡ end
        → end < 2 ^ 64
        → intervals fl kind max_fill raw end step n start 0
          ≡ intervals fl kind max_fill (l_trim raw start) end step n start 0
    unfolding l_trim
    l_trim-intervals raw end step n start v hs e small =
        elim (Option-cases (from_start start raw)) [
          | inl nothing_behind ↦ rw nothing_behind refl
          | inr (kept, found) ↦
              rw found (from_start-intervals raw kept end step n start v hs e small found)
        ]
