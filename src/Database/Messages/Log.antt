-- ===== src/Database/Messages/Log.antt =====
-- The store of RF messages as a log: the messages in the order of their times, one for a time.
use widuino.Base.{ℕ, ◌≤◌, List, [], ◌∷◌, some, Bool, true}
use widuino.Base.{◌≡◌, refl, inl, inr, arith, All, Bool-cases, ltb, leb, ◌==◌, ◌&&◌, if◌then◌else◌}
use widuino.Base.Dict.{Dict, bytes_same}
use widuino.Base.Int.{pos, pos_part}
use widuino.Base.Decimal.Laws.{bytes_less}
use widuino.Gears.{RfMessage}
use widuino.Database.{Codec, insert_sorted}
use widuino.Database.Messages.{gen_rf_key, no_message}
use widuino.Database.Messages.Keys.{
  gen_rf_key_order, gen_rf_key_same, last_time, IsOther, other-above,
}

abbrev pub time : RfMessage → ℕ
time m = pos_part m.at

-- A later message takes the place of an earlier one with its time.
unfoldable pub log_insert : RfMessage → List RfMessage → List RfMessage
log_insert m [] = m ∷ []
log_insert m (n ∷ ms) =
    let rest = log_insert m ms in
    if time n == time m then m ∷ ms else if ltb (time m) (time n) then m ∷ n ∷ ms else n ∷ rest

-- Whether a time is in a range whose end 0 stands for no end.
abbrev pub in_span : ℕ → ℕ → ℕ → Bool
in_span start end t = leb start t && (if end == 0 then true else ltb t end)

unfoldable pub log_range : ℕ → ℕ → List RfMessage → List RfMessage
log_range start end [] = []
log_range start end (m ∷ ms) =
    let rest = log_range start end ms in if in_span start end (time m) then m ∷ rest else rest

abbrev pub fold_all : {H : Type 0} → (RfMessage → H → H) → H → List RfMessage → H
fold_all f h [] = h
fold_all f h (m ∷ ms) = fold_all f (f m h) ms

-- A time from 1970 to 2262.
abbrev pub IsTimed : RfMessage → Type 0
IsTimed m = (m.at ≡ pos (time m)) × (time m ≤ last_time)

module _ (codec : Codec RfMessage) where
  -- The codec's promise: what it encodes is decoded to itself, into an empty message.
  abbrev pub IsCodec : Type 0
  IsCodec =
      (m : RfMessage) (d : List ℕ) → codec.encode m ≡ some d → codec.decode d no_message ≡ some m

  pub record IsEntry (m : RfMessage) (e : List ℕ × List ℕ) : Type 0 where
    pub timed : IsTimed m
    pub key : e.0 ≡ gen_rf_key m.at
    pub stored : codec.encode m ≡ some e.1

  -- The entries of the database are the log's, and behind them the other data.
  unfoldable pub IsLog : List RfMessage → Dict (List ℕ) (List ℕ) → Type 0
  IsLog [] es = All (λ (e : List ℕ × List ℕ). IsOther e.0) es
  IsLog (m ∷ ms) [] = ⊥
  IsLog (m ∷ ms) (e ∷ es) = IsEntry m e × IsLog ms es

  key_same :
      (m n : RfMessage)
      → IsTimed m
      → IsTimed n
      → bytes_same (gen_rf_key m.at) (gen_rf_key n.at) ≡ time m == time n
  key_same m n hm hn =
      rw (hm.0, hn.0) (gen_rf_key_same (time m) (time n) (omega arith) (omega arith))

  key_less :
      (m n : RfMessage)
      → IsTimed m
      → IsTimed n
      → bytes_less (gen_rf_key m.at) (gen_rf_key n.at) ≡ ltb (time m) (time n)
  key_less m n hm hn =
      rw (hm.0, hn.0) (gen_rf_key_order (time m) (time n) (omega arith) (omega arith))

  pub insert_sorted-IsLog :
      (m : RfMessage) (k d : List ℕ) (ms : List RfMessage) (es : Dict (List ℕ) (List ℕ))
      → IsEntry m (k, d)
      → IsLog ms es
      → IsLog (log_insert m ms) (insert_sorted k d es)
  unfolding IsLog log_insert insert_sorted
  insert_sorted-IsLog m k d [] [] h v = (h, tt)
  insert_sorted-IsLog m k d [] ((j, e) ∷ es) h v =
      let o = other-above j m.at v.0 in
      rw (h.key, o.0, o.1) (record { timed = h.timed; key = refl; stored = h.stored }, v)
  insert_sorted-IsLog m k d (n ∷ ms) [] h v = absurd v
  insert_sorted-IsLog m k d (n ∷ ms) ((j, e) ∷ es) h v =
      let same : bytes_same j k ≡ time n == time m =
        rw (v.0.key, h.key) (key_same n m v.0.timed h.timed) in
      let less : bytes_less k j ≡ ltb (time m) (time n) =
        rw (v.0.key, h.key) (key_less m n h.timed v.0.timed) in
      elim (Bool-cases (time n == time m)) [
        | inl hit ↦ rw (same, hit) (h, v.1)
        | inr miss ↦ elim (Bool-cases (ltb (time m) (time n))) [
          | inl before ↦ rw (same, less, miss, before) (h, v)
          | inr after ↦ rw (same, less, miss, after) (v.0, insert_sorted-IsLog m k d ms es h v.1)
        ]
      ]
