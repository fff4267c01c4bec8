-- ===== src/Interpol8/Trim.antt =====
-- interpol8/interpol8.go, `Raw`: the points that `lTrim` and `rTrim` eliminate are not needed.
use widuino.Base.{ℕ, zero, suc, ◌+◌, ◌-◌, ◌*◌, ◌^◌, ◌≤◌, ◌<◌, List, [], ◌∷◌, ◌++◌, none, some}
use widuino.Base.{
  ◌≡◌, ◌⊎◌, refl, sym, ap, ◌∙◌, inl, inr, arith, Bool-cases, Option-cases, true, false, leb, ltb,
  drop, take, length, take-all, get_elem?,
}
use widuino.Interpol8.Point.{Floats, RawPoint, Kind, u64}
use widuino.Interpol8.{intervals, to_limit, lies_before, r_trim}
use widuino.Interpol8.{in_order, from_start, l_trim, on_trimmed, interpolate}
use widuino.Interpol8.Grid.{count_of, adjust_end-fits}
use widuino.Interpol8.TrimLeft.{IsAscending, l_trim-intervals}
use widuino.Interpol8.TrimRight.{intervals-within}

split_at :
    {A : Type 0} (k : ℕ) (xs : List A) (x : A)
    → get_elem? xs k ≡ some x
    → (xs ≡ take k xs ++ (x ∷ drop (suc k) xs)) × (take (suc k) xs ≡ take k xs ++ (x ∷ []))
split_at k [] x e = cc
split_at zero (y ∷ xs) x e =
    let same : y ≡ x = cc e in (ap (λ z. z ∷ xs) same, ap (λ z. z ∷ []) same)
split_at (suc k) (y ∷ xs) x e =
    let (all, first) = split_at k xs x e in (ap (◌∷◌ y) all, ap (◌∷◌ y) first)

get_elem?-beyond : {A : Type 0} (k : ℕ) (xs : List A) → get_elem? xs k ≡ none → length xs ≤ k
get_elem?-beyond k [] e = omega arith
get_elem?-beyond zero (x ∷ xs) e = cc
get_elem?-beyond (suc k) (x ∷ xs) e = omega (arith, get_elem?-beyond k xs e)

module _ {F : Type 0} (fl : Floats F) (kind : Kind) (max_fill end step n start : ℕ) where
  abbrev IsEnough : List (RawPoint F) → List (RawPoint F) → Type 0
  IsEnough raw kept =
      intervals fl kind max_fill raw end step n start 0
      ≡ intervals fl kind max_fill kept end step n start 0

  -- Up to and with a point behind the end is enough.
  take-IsEnough :
      (raw : List (RawPoint F)) (k : ℕ) (q : RawPoint F)
      → 0 < step
      → start + n * step ≡ end
      → end < 2 ^ 64
      → get_elem? raw k ≡ some q
      → end < q.asof
      → IsEnough raw (take (suc k) raw)
  take-IsEnough raw k q hs e small at hq =
      let (all, first) = split_at k raw q at in
      ap (λ r. intervals fl kind max_fill r end step n start 0) all
      ∙ intervals-within fl q (drop (suc k) raw) kind max_fill (take k raw) end step n start 0
          (omega arith) hq hs e small
      ∙ ap (λ r. intervals fl kind max_fill r end step n start 0) (sym first)

  to_limit-IsEnough :
      (raw : List (RawPoint F)) (limit i : ℕ)
      → 0 < step
      → start + n * step ≡ end
      → end < 2 ^ 64
      → end < limit
      → (length raw ≤ i + 2)
        ⊎ ((q : RawPoint F) × (get_elem? raw (suc i) ≡ some q) × (limit ≤ q.asof))
      → IsEnough raw (to_limit raw limit i)
  to_limit-IsEnough raw limit zero hs e small behind next = refl
  to_limit-IsEnough raw limit (suc i) hs e small behind next =
      elim (Bool-cases (lies_before limit (get_elem? raw (suc i)))) [
        | inl within ↦ rw within (cut next)
        | inr beyond ↦
            rw beyond (to_limit-IsEnough raw limit i hs e small behind (at_or_behind beyond))
      ]
    where
      cut :
          (length raw ≤ suc i + 2)
            ⊎ ((q : RawPoint F) × (get_elem? raw (suc (suc i)) ≡ some q) × (limit ≤ q.asof))
          → IsEnough raw (take (suc i + 2) raw)
      cut (inl all) =
          ap (λ r. intervals fl kind max_fill r end step n start 0)
            (sym (take-all (suc i + 2) raw all))
      cut (inr (q, at, hq)) =
          let k : suc i + 2 ≡ suc (suc (suc i)) = omega arith in
          rw k (take-IsEnough raw (suc (suc i)) q hs e small at (omega (arith, behind, hq)))

      at_or_behind :
          lies_before limit (get_elem? raw (suc i)) ≡ false
          → (length raw ≤ i + 2)
            ⊎ ((q : RawPoint F) × (get_elem? raw (suc i) ≡ some q) × (limit ≤ q.asof))
      at_or_behind beyond = elim (Option-cases (get_elem? raw (suc i))) [
        | inl absent ↦ inl (omega (arith, get_elem?-beyond (suc i) raw absent))
        | inr (q, at) ↦ inr (q, at, ground (arith, (rw at at beyond)))
      ]

  r_trim-intervals :
      (raw : List (RawPoint F))
      → 0 < step
      → start + n * step ≡ end
      → end + step < 2 ^ 64
      → IsEnough raw (r_trim raw end step)
  unfolding r_trim
  r_trim-intervals raw hs e small =
      let limit : u64 (end + step) ≡ end + step = omega arith in
      rw limit (
        to_limit-IsEnough raw (end + step) (length raw - 2) hs e (omega arith) (omega arith)
          (inl (omega arith)))

abbrev IsNonempty : {F : Type 0} → List (RawPoint F) → Type 0
IsNonempty raw = (p : RawPoint _) × (rest : List (RawPoint _)) × (raw ≡ p ∷ rest)

from_start-IsNonempty :
    {F : Type 0} (start : ℕ) (raw kept : List (RawPoint F))
    → from_start start raw ≡ some kept
    → IsNonempty kept
from_start-IsNonempty start [] kept e = cc
from_start-IsNonempty start (p ∷ []) kept e = cc
from_start-IsNonempty start (p ∷ q ∷ raw) kept e = elim (Bool-cases (ltb start q.asof)) [
  | inl behind ↦ (p, q ∷ raw, sym (cc (rw behind at e)))
  | inr before ↦ from_start-IsNonempty start (q ∷ raw) kept (rw before at e)
]

l_trim-IsNonempty :
    {F : Type 0} (start : ℕ) (p : RawPoint F) (raw : List (RawPoint F))
    → IsNonempty (l_trim (p ∷ raw) start)
unfolding l_trim
l_trim-IsNonempty start p raw = elim (Option-cases (from_start start (p ∷ raw))) [
  | inl nothing_behind ↦ (p, raw, rw nothing_behind refl)
  | inr (kept, found) ↦
      let (q, rest, e) = from_start-IsNonempty start (p ∷ raw) kept found in (q, rest, rw found e)
]

to_limit-IsNonempty :
    {F : Type 0} (limit i : ℕ) (p : RawPoint F) (raw : List (RawPoint F))
    → IsNonempty (to_limit (p ∷ raw) limit i)
to_limit-IsNonempty limit zero p raw = (p, raw, refl)
to_limit-IsNonempty limit (suc i) p raw = elim (Bool-cases (lies_before limit (get_elem? raw i))) [
  | inl within ↦
      let k : suc i + 2 ≡ suc (i + 2) = omega arith in
      (p, take (i + 2) raw, rw within (ap (λ n. take n (p ∷ raw)) k))
  | inr beyond ↦ let (q, rest, e) = to_limit-IsNonempty limit i p raw in (q, rest, rw beyond e)
]

IsAscending-in_order :
    {F : Type 0} (raw : List (RawPoint F)) → IsAscending raw → in_order raw ≡ true
IsAscending-in_order [] v = refl
IsAscending-in_order (p ∷ []) v = refl
IsAscending-in_order (p ∷ q ∷ raw) v = ground (arith, v.0, IsAscending-in_order (q ∷ raw) v.1)

on_trimmed-cons :
    {F : Type 0} (fl : Floats F) (kind : Kind) (max_fill start end step n : ℕ)
    (raw : List (RawPoint F))
    → IsNonempty raw
    → on_trimmed fl kind max_fill start end step n raw
      ≡ intervals fl kind max_fill raw end step n start 0
on_trimmed-cons fl kind max_fill start end step n [] v = absurd (cc v.2)
on_trimmed-cons fl kind max_fill start end step n (p ∷ raw) v = refl

-- The points that the trimming drops are not needed. For a request with an end behind its start, a
-- step of 2 or more that the fill is not below, points in order of which no two have the same time,
-- at most 1000000 points to produce and an end, one step further on, within 64 bits, the result is
-- that of the loop over the intervals with all points, whatever the floats are.
pub interpolate-all_points :
    {F : Type 0} (fl : Floats F) (p : RawPoint F) (raw : List (RawPoint F)) (kind : Kind)
    (start end step max_fill : ℕ)
    → start < end
    → 2 ≤ step
    → step ≤ max_fill
    → IsAscending (p ∷ raw)
    → count_of start end step ≤ 1000000
    → start + count_of start end step * step + step < 2 ^ 64
    → let n = count_of start end step in
      interpolate fl (p ∷ raw) kind start end step max_fill
      ≡ intervals fl kind max_fill (p ∷ raw) (start + n * step) step n start 0
unfolding interpolate
interpolate-all_points fl p raw kind start end step max_fill h hs hf v few small =
    let n = count_of start end step in
    let end' = start + n * step in
    let behind : leb end start ≡ false = ground (arith, h) in
    let wide : ltb step 2 ≡ false = ground (arith, hs) in
    let filled : ltb max_fill step ≡ false = ground (arith, hf) in
    let fits : end' < 2 ^ 64 = omega (arith, small) in
    let left = l_trim (p ∷ raw) start in
    let (q, rest, e) = l_trim-IsNonempty start p raw in
    let kept : IsNonempty (r_trim left end' step) =
      rw e
        (unfold r_trim in to_limit-IsNonempty (u64 (end' + step)) (length (q ∷ rest) - 2) q rest) in
    rw
      (
        behind,
        wide,
        filled,
        IsAscending-in_order (p ∷ raw) v,
        adjust_end-fits start end step h hs few fits,
      )
      (on_trimmed-cons fl kind max_fill start end' step n (r_trim left end' step) kept
        ∙ sym (
            r_trim-intervals fl kind max_fill end' step n start left (omega (arith, hs)) refl small)
        ∙ sym (
            l_trim-intervals fl kind max_fill (p ∷ raw) end' step n start v (omega (arith, hs)) refl
              fits))
