-- ===== src/Interpol8/TrimRight.antt =====
-- interpol8/interpol8.go, `rTrim`: what it drops changes nothing.
use widuino.Base.{
  ℕ, zero, suc, ◌+◌, ◌-◌, ◌*◌, ◌^◌, ◌≤◌, ◌<◌, List, [], ◌∷◌, ◌++◌, Option, none, some,
}
use widuino.Base.{
  ◌≡◌, refl, sym, ap, ap₂, ◌∙◌, inl, inr, arith, Bool-cases, Bool, true, false, leb, ltb, drop,
  length, length-drop,
}
use widuino.Interpol8.Point.{Floats, RawPoint, Kind, Sum, u64, advance, interval, at_point}
use widuino.Interpol8.Point.{sum_points, and_more, nothing_yet, as_point}
use widuino.Interpol8.{intervals, put_point}
use widuino.Interpol8.Grid.{intervals-go}
use widuino.Interpol8.TrimLeft.{value_at}
use mathlib.Core.Option

drop-within :
    {A : Type 0} (n : ℕ) (xs ys : List A) → n ≤ length xs → drop n (xs ++ ys) ≡ drop n xs ++ ys
drop-within zero xs ys h = refl
drop-within (suc n) [] ys h = absurd (omega arith)
drop-within (suc n) (x ∷ xs) ys h = drop-within n xs ys (omega arith)

-- The points `before`, then `q` behind the interval, then more of them.
module _ {F : Type 0} (fl : Floats F) (q : RawPoint F) (more : List (RawPoint F)) where
  advance-stops :
      (test : ℕ → Bool) (a : ℕ) (before : List (RawPoint F))
      → test q.asof ≡ false
      → advance fl test a (before ++ (q ∷ more)) ≡ advance fl test a (before ++ (q ∷ []))
  unfolding advance
  advance-stops test a [] h = rw h refl
  advance-stops test a (p ∷ before) h = elim (Bool-cases (test p.asof)) [
    | inl on ↦ rw on (advance-stops test (suc a) before h)
    | inr off ↦ rw off refl
  ]

  advance_le :
      (test : ℕ → Bool) (a : ℕ) (before : List (RawPoint F))
      → test q.asof ≡ false
      → advance fl test a (before ++ (q ∷ [])) ≤ a + length before
  unfolding advance
  advance_le test a [] h = rw h (omega arith)
  advance_le test a (p ∷ before) h = elim (Bool-cases (test p.asof)) [
    | inl on ↦ rw on (omega (arith, advance_le test (suc a) before h))
    | inr off ↦ rw off (omega arith)
  ]

  module _ (kind : Kind) (max_fill : ℕ) where
    and_more-same :
        (f g : Sum F → Option (Sum F)) (o : Option (Sum F))
        → ((s : Sum F) → f s ≡ g s)
        → and_more fl f o ≡ and_more fl g o
    and_more-same f g none h = refl
    and_more-same f g (some s) h = h s

    at_point-next :
        (ts te : ℕ) (p : RawPoint F) (before : List (RawPoint F)) (s : Sum F)
        → at_point fl kind max_fill ts te p (before ++ (q ∷ more)) s
          ≡ at_point fl kind max_fill ts te p (before ++ (q ∷ [])) s
    at_point-next ts te p [] s = refl
    at_point-next ts te p (x ∷ before) s = refl

    sum_points-within :
        (ts te n : ℕ) (before : List (RawPoint F)) (s : Sum F)
        → n ≤ length before
        → sum_points fl kind max_fill ts te n (before ++ (q ∷ more)) s
          ≡ sum_points fl kind max_fill ts te n (before ++ (q ∷ [])) s
    unfolding sum_points
    sum_points-within ts te zero before s h = refl
    sum_points-within ts te (suc n) [] s h = absurd (omega arith)
    sum_points-within ts te (suc n) (p ∷ before) s h =
        ap (and_more fl (sum_points fl kind max_fill ts te n (before ++ (q ∷ more))))
          (at_point-next ts te p before s)
        ∙ and_more-same (sum_points fl kind max_fill ts te n (before ++ (q ∷ more)))
            (sum_points fl kind max_fill ts te n (before ++ (q ∷ [])))
            (at_point fl kind max_fill ts te p (before ++ (q ∷ [])) s)
            (λ s'. sum_points-within ts te n before s' (omega arith))

    as_point-next :
        (ts te : ℕ) (before : List (RawPoint F))
        → as_point fl kind ts te (before ++ (q ∷ more))
          ≡ as_point fl kind ts te (before ++ (q ∷ []))
    as_point-next ts te [] = refl
    as_point-next ts te (x ∷ before) = refl

    value_at-within :
        (before : List (RawPoint F)) (ts te a b : ℕ)
        → a ≤ length before
        → b ≤ length before
        → value_at fl kind max_fill (before ++ (q ∷ more)) ts te a b
          ≡ value_at fl kind max_fill (before ++ (q ∷ [])) ts te a b
    value_at-within before ts te a b ha hb =
        let first : a - 1 ≤ length before = omega (arith, ha) in
        let few : b - (a - 1) ≤ length (drop (a - 1) before) =
          omega (arith, length-drop (a - 1) before, hb) in
        rw
          (
            drop-within a before (q ∷ more) ha,
            drop-within a before (q ∷ []) ha,
            drop-within (a - 1) before (q ∷ more) first,
            drop-within (a - 1) before (q ∷ []) first,
          )
          (ap₂ Option.map (as_point-next ts te (drop a before))
            (sum_points-within ts te (b - (a - 1)) (drop (a - 1) before) (nothing_yet fl) few))

    index-within :
        (test : ℕ → Bool) (a : ℕ) (before : List (RawPoint F))
        → a ≤ length before
        → test q.asof ≡ false
        → advance fl test a (drop a (before ++ (q ∷ more)))
          ≡ advance fl test a (drop a (before ++ (q ∷ [])))
    index-within test a before ha h =
        rw (drop-within a before (q ∷ more) ha, drop-within a before (q ∷ []) ha)
          (advance-stops test a (drop a before) h)

    index_le :
        (test : ℕ → Bool) (a : ℕ) (before : List (RawPoint F))
        → a ≤ length before
        → test q.asof ≡ false
        → advance fl test a (drop a (before ++ (q ∷ []))) ≤ length before
    index_le test a before ha h =
        rw (drop-within a before (q ∷ []) ha)
          (omega (arith, advance_le test a (drop a before) h, length-drop a before, ha))

    interval-within :
        (before : List (RawPoint F)) (step ts a : ℕ)
        → a ≤ length before
        → ts ≤ q.asof
        → u64 (ts + step) < q.asof
        → (interval fl kind max_fill (before ++ (q ∷ more)) step ts a
            ≡ interval fl kind max_fill (before ++ (q ∷ [])) step ts a)
          × ((interval fl kind max_fill (before ++ (q ∷ [])) step ts a).1 ≤ length before)
    unfolding interval
    interval-within before step ts a ha low high =
        let te = u64 (ts + step) in
        let off : ltb q.asof ts ≡ false = ground (arith, low) in
        let off' : leb q.asof te ≡ false = ground (arith, high) in
        let i = advance fl (λ t. ltb t ts) a (drop a (before ++ (q ∷ []))) in
        let hi = index_le (λ t. ltb t ts) a before ha off in
        let hj = index_le (λ t. leb t te) i before hi off' in
        (
          rw
              (
                index-within (λ t. ltb t ts) a before ha off,
                index-within (λ t. leb t te) i before hi off',
              )
              (ap (λ v. (v, i))
                (value_at-within before ts te i
                  (advance fl (λ t. leb t te) i (drop i (before ++ (q ∷ [])))) hi hj)),
          hi,
        )

    pub intervals-within :
        (before : List (RawPoint F)) (end step n ts a : ℕ)
        → a ≤ length before
        → end < q.asof
        → 0 < step
        → ts + n * step ≡ end
        → end < 2 ^ 64
        → intervals fl kind max_fill (before ++ (q ∷ more)) end step n ts a
          ≡ intervals fl kind max_fill (before ++ (q ∷ [])) end step n ts a
    unfolding intervals
    intervals-within before end step zero ts a ha hq hs e small = refl
    intervals-within before end step (suc n) ts a ha hq hs e small =
        let te : u64 (ts + step) ≡ ts + step = omega arith in
        let on : ltb ts end ≡ true = ground (arith, hs, e) in
        let r = interval fl kind max_fill (before ++ (q ∷ [])) step ts a in
        let (same, kept) =
          interval-within before step ts a ha (omega (arith, hq, e)) (omega (arith, te, hq, e)) in
        let rest =
          intervals-within before end step n (ts + step) r.1 kept hq hs (omega (arith, e)) small in
        intervals-go fl kind max_fill (before ++ (q ∷ more)) end step n ts a on
        ∙ ap₂ (put_point fl) (ap (λ x. x.0) same) (
            ap₂ (intervals fl kind max_fill (before ++ (q ∷ more)) end step n) te
              (ap (λ x. x.1) same)
            ∙ rest
            ∙ ap (λ t. intervals fl kind max_fill (before ++ (q ∷ [])) end step n t r.1) (sym te))
        ∙ sym (intervals-go fl kind max_fill (before ++ (q ∷ [])) end step n ts a on)
