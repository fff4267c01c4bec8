-- ===== src/Database/Messages/ExactlyOnce.antt =====
-- hub/database/rf_subscribe.go and rfmessage.go: across the hand-over from catching up to the
-- subscription, a new subscriber is sent each message once.
use widuino.Base.{ℕ, ◌<◌, List, [], ◌∷◌, ◌++◌, Option, some, true, false, length}
use widuino.Base.{◌≡◌, refl, All}
use widuino.Base.Dict.{Dict}
use widuino.Base.Int.{ℤ, pos}
use widuino.Gears.{RfMessage}
use widuino.Database.{LevelDb, Codec, IsLevelDb}
use widuino.Database.Subscribers.Laws.{occurs}
use widuino.Database.Messages.Log.{log_range, IsCodec, IsLog}
use widuino.Database.Messages.Order.{IsOrdered, IsOrdered-left}
use widuino.Database.Messages.HandOver.{
  HandOver, Turn, store_one, publish, one_round, take_turns, asked_from, incoming,
}
use widuino.Database.Messages.LeftOver.{left_over, IsIncoming, IsLastOf}
use widuino.Database.Messages.InStep.{IsInStep}
use widuino.Database.Messages.Settled.{publish-one_round}
use widuino.Database.Messages.Turns.{
  IsFairTurn, IsFair, Led, store_one-Led, publish-Led, one_round-Led,
}

module _ {L : Type 0} (ldb : LevelDb L) (codec : Codec RfMessage) (codes : IsCodec codec)
    (entries : L → Dict (List ℕ) (List ℕ)) (leveldb : IsLevelDb ldb entries) (c start : ℕ) where
  take_turn-Led :
      (t : Turn) (ts : List Turn) (s : HandOver L)
      → IsInStep codec entries c start s
      → IsFairTurn ldb codec c t s
      → All (IsIncoming start) (incoming (t ∷ ts))
      → IsOrdered (s.stored ++ incoming (t ∷ ts))
      → Led ldb codec codes entries leveldb c start t (incoming ts) s
        × All (IsIncoming start) (incoming ts)
  take_turn-Led (store_one now m) ts s v fair comes ord = (
    store_one-Led ldb codec codes entries leveldb c start now m (incoming ts) s v comes.0 ord,
    comes.1,
  )
  take_turn-Led publish ts s v fair comes ord =
      (publish-Led ldb codec codes entries leveldb c start (incoming ts) s v ord, comes)
  take_turn-Led (one_round fits) ts s v fair comes ord =
      (one_round-Led ldb codec codes entries leveldb c start fits (incoming ts) s v fair ord, comes)

  pub take_turns-IsInStep :
      (ts : List Turn) (s : HandOver L)
      → IsInStep codec entries c start s
      → IsFair ldb codec c ts s
      → All (IsIncoming start) (incoming ts)
      → IsOrdered (s.stored ++ incoming ts)
      → (s' : HandOver L) × (take_turns ldb codec c ts s ≡ some s')
        × IsInStep codec entries c start s'
  unfolding take_turns IsFair
  take_turns-IsInStep [] s v fair comes ord = (s, refl, v)
  take_turns-IsInStep (t ∷ ts) s v (now_fair, fair) comes ord =
      let (led, later) = take_turn-Led t ts s v now_fair comes ord in
      let (s', done, v') =
        take_turns-IsInStep ts led.then led.in_step (rw led.taken at fair) later
          led.still_ordered in
      (s', rw led.taken done, v')

  pub asked_from-IsInStep :
      (l : L) (log : List RfMessage) (waits : Option RfMessage) (subs : List ℕ) (starts : List ℤ)
      (later : List RfMessage)
      → start < 10000000000000
      → IsLog codec log (entries l)
      → IsLastOf waits log
      → occurs c subs ≡ false
      → length subs ≡ length starts
      → IsOrdered (log ++ later)
      → IsInStep codec entries c start (asked_from l log waits (pos start) subs starts)
  asked_from-IsInStep l log waits subs starts later hs v newest gone e ord = record {
    held = v;
    ordered = IsOrdered-left log later ord;
    complete = refl;
    from = start;
    starts_at = refl;
    in_width = hs;
    not_ahead = λ t h p b. h;
    newest = newest;
    listed = (gone, e);
  }

  -- A subscriber with a channel of its own asks for the messages from a time below 10^13 on, at a hub
  -- whose arrays of subscribers have one length and whose store holds a log, whose last message may
  -- still wait to be published. Messages come in, in increasing order of their times and behind that
  -- log, with times up to 2262, none before the time asked for, nor at 0. The goroutine that catches
  -- up, and the processor, which stores a message and publishes it later, take turns in any order,
  -- some writes may fail, and channels may fill up; but no round finds nothing to send while a message
  -- waits to be published. Then nothing panics, and the store holds what has been stored; of this the
  -- subscriber's channel has been sent, each message once and in order, all from the time asked for
  -- on, but for what is left over: what the next round will find, or, once the subscription has begun,
  -- the message that waits to be published. And when the processor then publishes, and a round follows
  -- for which the channel has room, the subscription has begun and nothing is left over.
  pub take_turns-exactly_once :
      (ts : List Turn) (l : L) (log : List RfMessage) (waits : Option RfMessage) (subs : List ℕ)
      (starts : List ℤ)
      → start < 10000000000000
      → IsLog codec log (entries l)
      → IsLastOf waits log
      → occurs c subs ≡ false
      → length subs ≡ length starts
      → All (IsIncoming start) (incoming ts)
      → IsOrdered (log ++ incoming ts)
      → IsFair ldb codec c ts (asked_from l log waits (pos start) subs starts)
      → (s : HandOver L) × (take_turns ldb codec c ts
            (asked_from l log waits (pos start) subs starts)
          ≡ some s)
        × IsLog codec s.stored (entries s.store)
        × (s.sent ++ left_over s ≡ log_range start 0 s.stored)
        × ((s' : HandOver L) × (take_turns ldb codec c (publish ∷ one_round (λ n. true) ∷ []) s
              ≡ some s')
            × (s'.is_live ≡ true)
            × (s'.stored ≡ s.stored)
            × (s'.sent ≡ log_range start 0 s.stored))
  take_turns-exactly_once ts l log waits subs starts hs v newest gone e comes ord fair =
      let asking =
        asked_from-IsInStep l log waits subs starts (incoming ts) hs v newest gone e ord in
      let (s, done, v') = take_turns-IsInStep ts _ asking fair comes ord in
      (
        s,
        done,
        v'.held,
        v'.complete,
        publish-one_round ldb codec codes entries leveldb c start s v',
      )
