-- ===== src/Database/Messages/Refines.antt =====
-- hub/database/rfmessage.go implements a log of messages: PutRFMessage inserts into it, and
-- RFIterate runs through a range of it.
use widuino.Base.{ℕ, zero, suc, ◌<◌, List, [], ◌∷◌, Option, none, some, true, not}
use widuino.Base.{
  ◌≡◌, refl, sym, ap, subst, inl, inr, arith, Bool-cases, Option-cases, ltb, ◌==◌, ◌&&◌,
  if◌then◌else◌,
}
use widuino.Base.Dict.{Dict}
use widuino.Base.Int.{ℤ, pos}
use widuino.Base.Decimal.Laws.{bytes_less}
use widuino.Gears.{RfMessage}
use widuino.Database.{LevelDb, Codec, IsLevelDb, in_range}
use widuino.Database.Store.{put, iterate, iterate_entries, limit_of}
use widuino.Database.Messages.{
  gen_rf_key, max_int64, no_message, is_positive, stamped, put_rf_message, handled, rf_iterate,
}
use widuino.Database.Messages.Keys.{gen_rf_key_order, less-max_key, other-above}
use widuino.Database.Messages.Log.{
  time, log_insert, in_span, log_range, fold_all, IsTimed, IsCodec, IsEntry, IsLog,
  insert_sorted-IsLog,
}

-- The upper end of a range of keys.
abbrev limit : ℕ → ℤ
limit end = if end == 0 then max_int64 else pos end

less-limit :
    (end : ℕ) (m : RfMessage)
    → IsTimed m
    → end < 10000000000000
    → bytes_less (gen_rf_key m.at) (gen_rf_key (limit end))
      ≡ (if end == 0 then true else ltb (time m) end)
less-limit end m h small = elim (Bool-cases (end == 0)) [
  | inl endless ↦ rw (endless, h.0) (less-max_key (time m) h.1)
  | inr closed ↦ rw (closed, h.0) (gen_rf_key_order (time m) end (omega arith) (omega arith))
]

limit-is_positive : (end : ℕ) → (if is_positive (pos end) then pos end else max_int64) ≡ limit end
limit-is_positive zero = refl
limit-is_positive (suc end) = ground arith

entry-span :
    (start end : ℕ) (m : RfMessage) (k : List ℕ)
    → IsTimed m
    → k ≡ gen_rf_key m.at
    → start < 10000000000000
    → end < 10000000000000
    → (not (bytes_less k (gen_rf_key (pos start))) && bytes_less k (gen_rf_key (limit end)))
      ≡ in_span start end (time m)
entry-span start end m k h e hs he =
    let low : bytes_less k (gen_rf_key (pos start)) ≡ ltb (time m) start =
      rw (e, h.0) (gen_rf_key_order (time m) start (omega arith) hs) in
    let high : bytes_less k (gen_rf_key (limit end))
        ≡ (if end == 0 then true else ltb (time m) end) =
      rw e (less-limit end m h he) in
    rw (low, high) (ground arith)

limit_of-key : (from : List ℕ) (at : ℤ) → limit_of from (gen_rf_key at) ≡ gen_rf_key at
unfolding gen_rf_key
limit_of-key from at = refl

module _ {L : Type 0} (ldb : LevelDb L) (codec : Codec RfMessage) (codes : IsCodec codec) where
  module _ {H E : Type 0} (step : RfMessage → H → H) where
    abbrev steps : RfMessage → H → H × Option E
    steps m h = (step m h, none)

    entries-log :
        (start end : ℕ) (ms : List RfMessage) (es : Dict (List ℕ) (List ℕ)) (h : H)
        → start < 10000000000000
        → end < 10000000000000
        → IsLog codec ms es
        → iterate_entries ldb codec
            (handled ldb codec steps)
            (in_range (gen_rf_key (pos start)) (gen_rf_key (limit end)) es)
            no_message
            h
          ≡ (fold_all step h (log_range start end ms), none)
    unfolding IsLog log_range in_range
    entries-log start end [] [] h hs he v = refl
    entries-log start end [] ((k, d) ∷ es) h hs he v =
        rw (other-above k (limit end) v.0).2
          (ground (arith, entries-log start end [] es h hs he v.1))
    entries-log start end (m ∷ ms) [] h hs he v = absurd v
    entries-log start end (m ∷ ms) ((k, d) ∷ es) h hs he v =
        let sel = entry-span start end m k v.0.timed v.0.key hs he in
        let d_ok = codes m d v.0.stored in
        elim (Bool-cases (in_span start end (time m))) [
          | inl hit ↦ rw (sel, hit, d_ok) (entries-log start end ms es (step m h) hs he v.1)
          | inr miss ↦ rw (sel, miss) (entries-log start end ms es h hs he v.1)
        ]

  pub rf_iterate-fold_all :
      {H E : Type 0} (entries : L → Dict (List ℕ) (List ℕ)) (step : RfMessage → H → H)
      (start end : ℕ) (l : L) (ms : List RfMessage) (h : H)
      → IsLevelDb ldb entries
      → start < 10000000000000
      → end < 10000000000000
      → IsLog codec ms (entries l)
      → rf_iterate ldb codec {H = H} {E = E} (pos start) (pos end) (λ m h. (step m h, none)) l h
        ≡ (fold_all step h (log_range start end ms), none)
  unfolding rf_iterate iterate
  rf_iterate-fold_all entries step start end l ms h leveldb hs he v =
      rw
        (
          limit-is_positive end,
          limit_of-key (gen_rf_key (pos start)) (limit end),
          leveldb.range_entries l (gen_rf_key (pos start)) (gen_rf_key (limit end)),
        )
        (entries-log step start end ms (entries l) h hs he v)

  -- A message with a time from 1970 to 2262, which may be the clock's, that is stored without error is
  -- in the log, in its place, and is published.
  pub put_rf_message-IsLog :
      (entries : L → Dict (List ℕ) (List ℕ)) (now : ℤ) (l l' : L) (m : RfMessage)
      (out : Option RfMessage) (ms : List RfMessage)
      → IsLevelDb ldb entries
      → IsTimed (stamped now m)
      → IsLog codec ms (entries l)
      → put_rf_message ldb codec now l m ≡ (l', (none, out))
      → IsLog codec (log_insert (stamped now m) ms) (entries l') × (out ≡ some (stamped now m))
  unfolding put_rf_message put
  put_rf_message-IsLog entries now l l' m out ms leveldb timed v e =
      elim (Option-cases (codec.encode (stamped now m))) [
        | inl bad ↦ cc (rw bad at e)
        | inr (d, coded) ↦ elim (Option-cases (ldb.put l (gen_rf_key (stamped now m).at) d)) [
          | inl failed ↦ cc (rw (coded, failed) at e)
          | inr (l2, written) ↦
              let done = (rw (coded, written) at e) in
              let here : l2 ≡ l' = ap (λ r. r.0) done in
              let told : some (stamped now m) ≡ out = ap (λ r. r.1.1) done in
              let held = leveldb.put_entry l l2 (gen_rf_key (stamped now m).at) d written in
              let entry : IsEntry codec (stamped now m) (gen_rf_key (stamped now m).at, d) =
                record { timed = timed; key = refl; stored = coded } in
              (
                subst (λ x. IsLog codec (log_insert (stamped now m) ms) (entries x)) here
                    (rw held
                      (insert_sorted-IsLog codec (stamped now m) _ d ms (entries l) entry v)),
                sym told,
              )
        ]
      ]
