-- ===== src/TimeRange/Laws.antt =====
-- OLD/flow/gadgets/time_range.go: which points of the database are used, and what is sent.
use widuino.Base.{ℕ, ◌+◌, ◌-◌, ◌*◌, ◌/◌, ◌^◌, ◌≤◌, ◌<◌, List, [], ◌∷◌, ◌++◌, Option, some}
use widuino.Base.{
  ◌≡◌, refl, sym, ap, ap₂, ◌∙◌, inl, inr, arith, All, append_assoc, Bool-cases, Bool, true, false,
  ◌&&◌, ◌||◌, ◌==◌, ltb, leb, if◌then◌else◌,
}
use widuino.Base.Decimal.{decimal}
use widuino.Base.Decimal.ReadBack.{number-decimal}
use widuino.Interpol8.Point.{Floats, RawPoint, absolute, IntPoint, u64, sub64}
use widuino.Interpol8.{in_order}
use widuino.Interpol8.Grid.{grid, times, count_of, interpolate-grid}
use widuino.TimeRange.{
  Params, PointOrNan, Sent, range_tag, point, sync_tag, trim_prefix, parse_uint, within_64_bits,
  db_key, point_at, at_time, of_suffix, raw_point, and_point, raw_points, data_hack, time_range,
  or_null,
}

trim_prefix-append : (xs ys : List ℕ) → trim_prefix xs (xs ++ ys) ≡ some ys
trim_prefix-append [] ys = refl
trim_prefix-append (x ∷ xs) ys =
    let same : x == x ≡ true = ground arith in rw same (trim_prefix-append xs ys)

parse_uint-decimal : (n : ℕ) → n < 2 ^ 64 → parse_uint (decimal n) ≡ some n
unfolding parse_uint
parse_uint-decimal n h =
    let small : n < 10 ^ 20 = omega (arith, h) in
    let fits : ltb n (2 ^ 64) ≡ true = ground (arith, h) in
    ap within_64_bits (number-decimal n small) ∙ rw fits refl

module _ {F : Type 0} (fl : Floats F) (parse_float : List ℕ → Option F) where
  -- The points that are used of the values stored at given times: those from the start to the end
  -- whose value is a number.
  abbrev pub used : ℕ → ℕ → List (ℕ × List ℕ) → List (RawPoint F)
  used start end [] = []
  used start end ((time, v) ∷ stored) =
      let rest = used start end stored in
      if leb start time && leb time end
      then and_point fl parse_float (point_at fl parse_float time (parse_float v)) rest
      else rest

  abbrev pub entries_of : List ℕ → List (ℕ × List ℕ) → List (List ℕ × List ℕ)
  entries_of key [] = []
  entries_of key ((time, v) ∷ stored) = (db_key key time, v) ∷ entries_of key stored

  raw_point-stored :
      (params : Params) (time : ℕ) (v : List ℕ)
      → time < 2 ^ 64
      → raw_point fl parse_float params (db_key params.key time, v)
        ≡ at_time fl parse_float params.start params.end v (some time)
  unfolding raw_point
  raw_point-stored params time v h =
      ap
        (λ k.
          of_suffix fl parse_float params.start params.end v
            (trim_prefix (params.key ++ (b'/' ∷ [])) k))
        (sym (append_assoc params.key (b'/' ∷ []) (decimal time)))
      ∙ ap (of_suffix fl parse_float params.start params.end v)
          (trim_prefix-append (params.key ++ (b'/' ∷ [])) (decimal time))
      ∙ ap (at_time fl parse_float params.start params.end v) (parse_uint-decimal time h)

  -- Of the values that the database holds for a key, those from the start to the end of the request
  -- are used, if they can be parsed, and no others: also those that are read one step before the
  -- start and one step behind the end are dropped.
  raw_points-used :
      (params : Params) (stored : List (ℕ × List ℕ))
      → All (λ e. e.0 < 2 ^ 64) stored
      → raw_points fl parse_float params (entries_of params.key stored)
        ≡ used params.start params.end stored
  unfolding raw_points raw_point
  raw_points-used params [] h = refl
  raw_points-used params ((time, v) ∷ stored) h =
      let rest = raw_points-used params stored h.1 in
      ap₂ (and_point fl parse_float) (raw_point-stored params time v h.0) rest
      ∙ elim (Bool-cases (leb params.start time && leb time params.end)) [
        | inl inside ↦
            let in_range : (ltb time params.start || ltb params.end time) ≡ false =
              ground (arith, inside) in
            rw (in_range, inside) refl
        | inr outside ↦
            let out_of_range : (ltb time params.start || ltb params.end time) ≡ true =
              ground (arith, outside) in
            rw (out_of_range, outside) refl
      ]

  abbrev pub points : List (PointOrNan F) → List (Sent F)
  points [] = []
  points (d ∷ ds) = point d ∷ points ds

  abbrev pub sent_times : List (PointOrNan F) → List ℕ
  sent_times [] = []
  sent_times (d ∷ ds) = d.asof ∷ sent_times ds

  or_null-asof : (d : IntPoint F) → (or_null fl parse_float d).asof ≡ d.asof
  or_null-asof d = elim (Bool-cases (fl.is_nan d.avg)) [
    | inl nothing ↦ rw nothing refl
    | inr number_there ↦ rw number_there refl
  ]

  data_hack-times :
      (ps : List (IntPoint F))
      → (ds : List (PointOrNan F)) × (data_hack fl parse_float ps ≡ points ds ++ (sync_tag ∷ []))
        × (sent_times ds ≡ times ps)
  unfolding data_hack
  data_hack-times [] = ([], refl, refl)
  data_hack-times (p ∷ ps) =
      let (ds, e, t) = data_hack-times ps in
      (
        or_null fl parse_float p ∷ ds,
        ap (◌∷◌ (point (or_null fl parse_float p))) e,
        ap₂ (◌∷◌) (or_null-asof p) t,
      )

  -- For a request with an end behind its start, a step of 2 or more, at most 1000000 points to
  -- produce, an end of the last step within 64 bits, a fill of four steps that fits into 64 bits too,
  -- and memory for the slice, and with points that the database gives in the order of their times: the
  -- range tag goes out, then one point for each step at the times start, start + step and so on, and
  -- then the sync tag.
  pub time_range-sends :
      (entries : List ℕ → List ℕ → List (List ℕ × List ℕ)) (room : ℕ → Bool) (params : Params)
      → params.start < params.end
      → 2 ≤ params.step
      → count_of params.start params.end params.step ≤ 1000000
      → params.start + count_of params.start params.end params.step * params.step < 2 ^ 64
      → 4 * params.step < 2 ^ 64
      → room ((params.end - params.start) / params.step) ≡ true
      → in_order (
          raw_points fl parse_float params (
            entries
              (db_key params.key (sub64 params.start params.step))
              (db_key params.key (u64 (params.end + params.step)))))
        ≡ true
      → (ds : List (PointOrNan F)) × (time_range fl parse_float entries room params
          ≡ some (range_tag params.key ∷ (points ds ++ (sync_tag ∷ []))))
        × (sent_times ds
            ≡ grid params.start params.step (count_of params.start params.end params.step))
  unfolding time_range
  time_range-sends entries room params h hs few small fill allowed sorted =
      let raw = raw_points fl parse_float params (
        entries (db_key params.key (sub64 params.start params.step))
          (db_key params.key (u64 (params.end + params.step)))) in
      let filled : params.step ≤ u64 (4 * params.step) = omega (arith, fill) in
      let behind : leb params.end params.start ≡ false = ground (arith, h) in
      let wide : ltb params.step 2 ≡ false = ground (arith, hs) in
      let (ps, done, at) =
        interpolate-grid fl raw absolute params.start params.end params.step (u64 (4 * params.step))
          h hs filled sorted few small in
      let (ds, sent, same) = data_hack-times ps in
      (
        ds,
        rw (behind, wide, allowed, done) (ap (λ s. some (range_tag params.key ∷ s)) sent),
        same ∙ at,
      )
