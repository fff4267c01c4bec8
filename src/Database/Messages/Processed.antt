-- ===== src/Database/Messages/Processed.antt =====
-- hub/database/rfmessage.go, `NewProcessor`: what the hub's processor of messages keeps in the store is
-- what it publishes.
use widuino.Base.{ℕ, List, [], ◌∷◌, none, some}
use widuino.Base.{◌≡◌, refl, ◌⊎◌, inl, inr, Option-cases, All}
use widuino.Base.Dict.{Dict}
use widuino.Base.Int.{ℤ}
use widuino.Gears.{RfMessage}
use widuino.Database.{LevelDb, Codec, IsLevelDb}
use widuino.Database.Failure.{DbError, bad_value, put_failed}
use widuino.Database.Store.{put}
use widuino.Database.Messages.{gen_rf_key, stamped, put_rf_message, process_messages}
use widuino.Database.Messages.Log.{log_insert, IsTimed, IsCodec, IsLog}
use widuino.Database.Messages.Refines.{put_rf_message-IsLog}

-- A log after messages.
abbrev pub with_messages : List RfMessage → List RfMessage → List RfMessage
with_messages [] log = log
with_messages (m ∷ ms) log = with_messages ms (log_insert m log)

-- Some of the messages that came in, in order, each with its time or the clock's.
pub data Among : List (ℤ × RfMessage) → List RfMessage → Type 0 where
  no_more : Among [] []
  one_stored :
      (now : ℤ) (m : RfMessage) {ms : List (ℤ × RfMessage)} {out : List RfMessage}
      → Among ms out
      → Among ((now, m) ∷ ms) (stamped now m ∷ out)
  one_failed :
      (now : ℤ) (m : RfMessage) {ms : List (ℤ × RfMessage)} {out : List RfMessage}
      → Among ms out
      → Among ((now, m) ∷ ms) out

module _ {L : Type 0} (ldb : LevelDb L) (codec : Codec RfMessage) where
  -- A message is stored and published, or the store stays as it was.
  pub put_rf_message-cases :
      (now : ℤ) (l : L) (m : RfMessage)
      → ((l' : L) × (put_rf_message ldb codec now l m ≡ (l', (none, some (stamped now m)))))
        ⊎ ((e : DbError) × (put_rf_message ldb codec now l m ≡ (l, (some e, none))))
  unfolding put_rf_message put
  put_rf_message-cases now l m = elim (Option-cases (codec.encode (stamped now m))) [
    | inl bad ↦ inr (bad_value, rw bad refl)
    | inr (d, coded) ↦ elim (Option-cases (ldb.put l (gen_rf_key (stamped now m).at) d)) [
      | inl failed ↦ inr (put_failed, rw (coded, failed) refl)
      | inr (l', written) ↦ inl (l', rw (coded, written) refl)
    ]
  ]

module _ {L : Type 0} (ldb : LevelDb L) (codec : Codec RfMessage) (codes : IsCodec codec) where
  -- The processor runs over messages with times from 1970 to 2262, from a store that holds a log.
  -- Whatever errors it meets, the messages that it has published are among those that came in, in
  -- order, and the store is the log with exactly these inserted.
  pub process_messages-IsLog :
      (entries : L → Dict (List ℕ) (List ℕ)) (l : L) (log : List RfMessage)
      (ms : List (ℤ × RfMessage))
      → IsLevelDb ldb entries
      → All (λ (x : ℤ × RfMessage). IsTimed (stamped x.0 x.1)) ms
      → IsLog codec log (entries l)
      → let (l', out) = process_messages ldb codec l ms in
        Among ms out × IsLog codec (with_messages out log) (entries l')
  unfolding process_messages
  process_messages-IsLog entries l log [] leveldb timed v = (no_more, v)
  process_messages-IsLog entries l log ((now, m) ∷ ms) leveldb (t, ts) v =
      elim (put_rf_message-cases ldb codec now l m) [
        | inl (l', done) ↦
            let now_log =
              (put_rf_message-IsLog ldb codec codes entries now l l' m (some (stamped now m)) log
                leveldb t v done).0 in
            let rest =
              process_messages-IsLog entries l' (log_insert (stamped now m) log) ms leveldb ts
                now_log in
            rw done (one_stored now m rest.0, rest.1)
        | inr (e, failed) ↦
            let rest = process_messages-IsLog entries l log ms leveldb ts v in
            rw failed (one_failed now m rest.0, rest.1)
      ]
