-- ===== src/Database/Messages/CatchUp.antt =====
-- hub/database/rf_subscribe.go, `catchUpRFSubscribe`: a new subscriber gets the stored messages.
use widuino.Base.{ℕ, suc, ◌<◌, List, [], ◌∷◌, ◌++◌, Option, none, some, Bool, true, false}
use widuino.Base.{
  ◌≡◌, ◌≢◌, refl, sym, ap, ◌∙◌, inl, inr, arith, All, Bool-cases, append-nil, append_assoc,
  if◌then◌else◌,
}
use widuino.Base.Dict.{Dict}
use widuino.Base.Int.{ℤ, pos, next}
use widuino.Gears.{RfMessage}
use widuino.Database.{LevelDb, Codec, IsLevelDb}
use widuino.Database.Subscribers.{CatchUp, begun, caught}
use widuino.Database.Messages.{rf_iterate}
use widuino.Database.Messages.Log.{time, in_span, log_range, fold_all, IsTimed, IsCodec, IsLog}
use widuino.Database.Messages.Refines.{rf_iterate-fold_all}
use mathlib.Core.Option

abbrev pub sent_at : RfMessage → ℤ
sent_at m = m.at

-- A round: the store as it is then, and which messages the channel has room for.
pub record Round (L : Type 0) : Type 0 where
  pub store : L
  pub fits : ℕ → Bool

abbrev pub more_sent : List RfMessage → List RfMessage × ℤ → List RfMessage × ℤ
more_sent sent (later, start) = (sent ++ later, start)

module _ {L : Type 0} (ldb : LevelDb L) (codec : Codec RfMessage) where
  unfoldable pub do_catch_up : Round L → ℤ → CatchUp RfMessage
  do_catch_up r start =
      (rf_iterate ldb codec {H = CatchUp RfMessage} {E = Unit {0}} start (pos 0)
        (λ m h. (caught sent_at r.fits m h, none)) r.store begun).0

  -- The messages sent over the rounds and the time that the subscription starts at, once a round has
  -- kept the lock; `none` while none has.
  unfoldable pub catch_up : List (Round L) → ℤ → Option (List RfMessage × ℤ)
  catch_up [] last_at = none
  catch_up (r ∷ rs) last_at =
      let h = do_catch_up r last_at in
      let later = Option.map (more_sent h.sent) (catch_up rs (next h.last_at)) in
      if h.locked then some (h.sent, next h.last_at) else later

-- The time of the last message, or `t`.
abbrev pub last_of : ℕ → List RfMessage → ℕ
last_of t [] = t
last_of t (m ∷ ms) = last_of (time m) ms

module _ (fits : ℕ → Bool) where
  fold-sent :
      (h : CatchUp RfMessage) (ms : List RfMessage)
      → (fold_all (caught sent_at fits) h ms).sent ≡ h.sent ++ ms
  unfolding caught
  fold-sent h [] = sym (append-nil h.sent)
  fold-sent h (m ∷ ms) = fold-sent (caught sent_at fits m h) ms ∙ append_assoc h.sent (m ∷ []) ms

  fold-locked :
      (h : CatchUp RfMessage) (ms : List RfMessage)
      → ((n : ℕ) → fits n ≡ true)
      → (fold_all (caught sent_at fits) h ms).locked ≡ h.locked
  unfolding caught
  fold-locked h [] room = refl
  fold-locked h (m ∷ ms) room = fold-locked (caught sent_at fits m h) ms room ∙ rw (room h.count)

  fold-last_at :
      (h : CatchUp RfMessage) (t : ℕ) (ms : List RfMessage)
      → h.last_at ≡ pos t
      → All IsTimed ms
      → (fold_all (caught sent_at fits) h ms).last_at ≡ pos (last_of t ms)
  unfolding caught
  fold-last_at h t [] e timed = e
  fold-last_at h t (m ∷ ms) e timed =
      fold-last_at (caught sent_at fits m h) (time m) ms timed.0.0 timed.1

pub log_range-IsTimed :
    (codec : Codec RfMessage) (start end : ℕ) (ms : List RfMessage) (es : Dict (List ℕ) (List ℕ))
    → IsLog codec ms es
    → All IsTimed (log_range start end ms)
unfolding IsLog log_range
log_range-IsTimed codec start end [] es v = tt
log_range-IsTimed codec start end (m ∷ ms) [] v = absurd v
log_range-IsTimed codec start end (m ∷ ms) (e ∷ es) v =
    elim (Bool-cases (in_span start end (time m))) [
      | inl hit ↦ rw hit (v.0.timed, log_range-IsTimed codec start end ms es v.1)
      | inr miss ↦ rw miss (log_range-IsTimed codec start end ms es v.1)
    ]

module _ {L : Type 0} (ldb : LevelDb L) (codec : Codec RfMessage) (codes : IsCodec codec) where
  module _ (entries : L → Dict (List ℕ) (List ℕ)) (r : Round L) (start : ℕ) (ms : List RfMessage)
      (leveldb : IsLevelDb ldb entries) (hs : start < 10000000000000)
      (v : IsLog codec ms (entries r.store)) where
    pub do_catch_up-fold :
        do_catch_up ldb codec r (pos start)
        ≡ fold_all (caught sent_at r.fits) begun (log_range start 0 ms)
    unfolding do_catch_up
    do_catch_up-fold =
        ap (λ x. x.0)
          (rf_iterate-fold_all ldb codec codes {H = CatchUp RfMessage} {E = Unit {0}} entries
            (caught sent_at r.fits) start 0 r.store ms begun leveldb hs (omega arith) v)

    pub do_catch_up-sent : (do_catch_up ldb codec r (pos start)).sent ≡ log_range start 0 ms
    do_catch_up-sent =
        ap (λ h. h.sent) do_catch_up-fold ∙ fold-sent r.fits begun (log_range start 0 ms)

    pub do_catch_up-locked :
        ((n : ℕ) → r.fits n ≡ true) → (do_catch_up ldb codec r (pos start)).locked ≡ true
    do_catch_up-locked room =
        ap (λ h. h.locked) do_catch_up-fold ∙ fold-locked r.fits begun (log_range start 0 ms) room

    -- A round that loses the lock has sent a message.
    pub do_catch_up-some :
        (do_catch_up ldb codec r (pos start)).locked ≡ false → log_range start 0 ms ≢ []
    do_catch_up-some lost none_left =
        let fold = do_catch_up-fold in cc (lost, none_left, ap (λ h. h.locked) fold)

    pub do_catch_up-last_at :
        next (do_catch_up ldb codec r (pos start)).last_at
        ≡ pos (suc (last_of 0 (log_range start 0 ms)))
    do_catch_up-last_at = ap next (
        ap (λ h. h.last_at) do_catch_up-fold
        ∙ fold-last_at r.fits begun 0 (log_range start 0 ms) refl
            (log_range-IsTimed codec start 0 ms (entries r.store) v))

  -- A subscriber whose channel never fills up gets, in one round and in order, the stored messages
  -- from its start on, and its subscription begins one millisecond after the last of them; if there
  -- is none, it begins at 1, whatever start was asked for.
  pub catch_up-log :
      (entries : L → Dict (List ℕ) (List ℕ)) (r : Round L) (rs : List (Round L)) (start : ℕ)
      (ms : List RfMessage)
      → IsLevelDb ldb entries
      → ((n : ℕ) → r.fits n ≡ true)
      → start < 10000000000000
      → IsLog codec ms (entries r.store)
      → catch_up ldb codec (r ∷ rs) (pos start)
        ≡ some (log_range start 0 ms, pos (suc (last_of 0 (log_range start 0 ms))))
  unfolding catch_up
  catch_up-log entries r rs start ms leveldb room hs v = rw (
    do_catch_up-locked entries r start ms leveldb hs v room,
    do_catch_up-sent entries r start ms leveldb hs v,
    do_catch_up-last_at entries r start ms leveldb hs v,
  )
