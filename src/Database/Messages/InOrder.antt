-- ===== src/Database/Messages/InOrder.antt =====
-- hub/database/rfmessage.go, `RFIterate`: a range of the store, in the order of the times.
use widuino.Base.{ℕ, ◌<◌, List, [], ◌∷◌, none, true}
use widuino.Base.{◌≡◌, inl, inr, arith, All, Bool-cases, ltb}
use widuino.Base.Dict.{Dict}
use widuino.Base.Int.{pos}
use widuino.Base.Decimal.Laws.{bytes_less}
use widuino.Gears.{RfMessage}
use widuino.Database.{LevelDb, Codec, IsLevelDb}
use widuino.Database.Messages.{rf_iterate}
use widuino.Database.Messages.Keys.{gen_rf_key_order}
use widuino.Database.Messages.Log.{time, in_span, log_range, fold_all, IsCodec, IsEntry, IsLog}
use widuino.Database.Messages.Refines.{rf_iterate-fold_all}
use widuino.Database.Messages.Order.{IsOrdered}

-- The entries of a database stand in the byte order of their keys, each key once.
abbrev pub IsSorted : Dict (List ℕ) (List ℕ) → Type 0
IsSorted [] = Unit
IsSorted ((k, d) ∷ es) = All (λ (e : List ℕ × List ℕ). bytes_less k e.0 ≡ true) es × IsSorted es

module _ (codec : Codec RfMessage) where
  later_entries :
      (m : RfMessage) (k d : List ℕ) (ms : List RfMessage) (es : Dict (List ℕ) (List ℕ))
      → IsEntry codec m (k, d)
      → IsLog codec ms es
      → All (λ (e : List ℕ × List ℕ). bytes_less k e.0 ≡ true) es
      → All (λ n. time m < time n) ms
  unfolding IsLog
  later_entries m k d [] es h v s = tt
  later_entries m k d (n ∷ ms) [] h v s = absurd v
  later_entries m k d (n ∷ ms) ((j, e) ∷ es) h v s =
      let order =
        gen_rf_key_order (time m) (time n) (omega (arith, h.timed.1))
          (omega (arith, v.0.timed.1)) in
      let less : ltb (time m) (time n) ≡ true =
        (rw (h.key, v.0.key, h.timed.0, v.0.timed.0, order) at s.0) in
      (ground (arith, less), later_entries m k d ms es h v.1 s.1)

  IsLog-IsOrdered :
      (ms : List RfMessage) (es : Dict (List ℕ) (List ℕ))
      → IsLog codec ms es
      → IsSorted es
      → IsOrdered ms
  unfolding IsLog
  IsLog-IsOrdered [] es v s = tt
  IsLog-IsOrdered (m ∷ ms) [] v s = absurd v
  IsLog-IsOrdered (m ∷ ms) ((k, d) ∷ es) v s =
      (later_entries m k d ms es v.0 v.1 s.0, IsLog-IsOrdered ms es v.1 s.1)

log_range-later :
    (t start end : ℕ) (ms : List RfMessage)
    → All (λ n. t < time n) ms
    → All (λ n. t < time n) (log_range start end ms)
unfolding log_range
log_range-later t start end [] v = tt
log_range-later t start end (m ∷ ms) v = elim (Bool-cases (in_span start end (time m))) [
  | inl hit ↦ rw hit (v.0, log_range-later t start end ms v.1)
  | inr miss ↦ rw miss (log_range-later t start end ms v.1)
]

log_range-IsOrdered :
    (start end : ℕ) (ms : List RfMessage) → IsOrdered ms → IsOrdered (log_range start end ms)
unfolding log_range
log_range-IsOrdered start end [] v = tt
log_range-IsOrdered start end (m ∷ ms) v = elim (Bool-cases (in_span start end (time m))) [
  | inl hit ↦
      rw hit (log_range-later (time m) start end ms v.0, log_range-IsOrdered start end ms v.1)
  | inr miss ↦ rw miss (log_range-IsOrdered start end ms v.1)
]

module _ {L : Type 0} (ldb : LevelDb L) (codec : Codec RfMessage) (codes : IsCodec codec) where
  -- On a database that holds a log, with its entries in the byte order of their keys, an iteration
  -- with a callback that never stops it hands on exactly the messages of the log whose time is in the
  -- range, each later than the one before it. An end of 0 stands for no end; the ends are below
  -- 10^13, the year 2286.
  pub rf_iterate-log :
      {H E : Type 0} (entries : L → Dict (List ℕ) (List ℕ)) (step : RfMessage → H → H)
      (start end : ℕ) (l : L) (ms : List RfMessage) (h : H)
      → IsLevelDb ldb entries
      → start < 10000000000000
      → end < 10000000000000
      → IsLog codec ms (entries l)
      → IsSorted (entries l)
      → (rf_iterate ldb codec {H = H} {E = E} (pos start) (pos end) (λ m h. (step m h, none)) l h
          ≡ (fold_all step h (log_range start end ms), none))
        × IsOrdered (log_range start end ms)
  rf_iterate-log entries step start end l ms h leveldb hs he v sorted = (
    rf_iterate-fold_all ldb codec codes entries step start end l ms h leveldb hs he v,
    log_range-IsOrdered start end ms (IsLog-IsOrdered codec ms (entries l) v sorted),
  )
