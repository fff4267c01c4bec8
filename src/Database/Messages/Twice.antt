-- ===== src/Database/Messages/Twice.antt =====
-- hub/database/rf_subscribe.go, `doCatchUp`: lastAt starts at 0 in every round, so a round that finds
-- nothing starts the subscription at 1.
use widuino.Base.{ℕ, suc, ◌≤◌, ◌<◌, List, [], ◌∷◌, ◌++◌, Option, none, some, true, false, length}
use widuino.Base.{◌≡◌, refl, sym, ap, subst, ◌∙◌, arith, All, append-nil, append_assoc}
use widuino.Base.Dict.{Dict}
use widuino.Base.Int.{ℤ, pos, negsuc, next, lebℤ}
use widuino.Gears.{RfMessage}
use widuino.Database.{LevelDb, Codec, IsLevelDb}
use widuino.Database.Subscribers.Laws.{occurs}
use widuino.Database.Messages.Log.{time, log_range, IsCodec, IsLog}
use widuino.Database.Messages.CatchUp.{
  Round, do_catch_up, last_of, do_catch_up-sent, do_catch_up-locked, do_catch_up-last_at,
}
use widuino.Database.Messages.Order.{IsOrdered}
use widuino.Database.Messages.Growth.{log_range-append, log_range-one}
use widuino.Database.Messages.HandOver.{
  HandOver, Turn, publish, one_round, take_turn, take_turns, asked_from, incoming, on_channel,
  ◌>>=◌, when_pending, publish_done,
}
use widuino.Database.Messages.LeftOver.{left_over, IsIncoming, IsLastOf, publish_to-listed}
use widuino.Database.Messages.InStep.{IsInStep, after_round}
use widuino.Database.Messages.Turns.{IsFair, one_round-taken}
use widuino.Database.Messages.ExactlyOnce.{asked_from-IsInStep, take_turns-IsInStep}

from_one : (m : RfMessage) → 0 < time m → lebℤ (pos 1) m.at ≡ true
from_one m h = of_time m.at h
  where
    of_time : (at : ℤ) → 0 < time (record m { at = at }) → lebℤ (pos 1) at ≡ true
    of_time (pos n) h = ground (arith, h)
    of_time (negsuc n) h = absurd (omega arith)

module _ {L : Type 0} (ldb : LevelDb L) (codec : Codec RfMessage) (codes : IsCodec codec)
    (entries : L → Dict (List ℕ) (List ℕ)) (leveldb : IsLevelDb ldb entries) (c start : ℕ) where
  -- With nothing left over, the message that waits has been sent.
  sent_once :
      (s : HandOver L) (m : RfMessage)
      → IsInStep codec entries c start s
      → s.pending ≡ some m
      → left_over s ≡ []
      → start ≤ time m
      → (earlier : List RfMessage) × (s.sent ≡ log_range start 0 earlier ++ (m ∷ []))
  sent_once s m v wait nothing wanted =
      let (earlier, at_end) = v.newest m wait in
      (
        earlier,
        sym (append-nil s.sent)
            ∙ ap (λ r. s.sent ++ r) (sym nothing)
            ∙ v.complete
            ∙ ap (log_range start 0) at_end
            ∙ log_range-append start earlier (m ∷ [])
            ∙ ap (λ r. log_range start 0 earlier ++ r) (log_range-one start m wanted),
      )

  round-publish :
      (s : HandOver L) (m : RfMessage)
      → IsInStep codec entries c start s
      → s.is_live ≡ false
      → s.pending ≡ some m
      → left_over s ≡ []
      → 0 < time m
      → (s' : HandOver L) × (take_turns ldb codec c (one_round (λ n. true) ∷ publish ∷ []) s
          ≡ some s')
        × (s'.sent ≡ s.sent ++ (m ∷ []))
  unfolding take_turns take_turn
  round-publish s m v catching wait nothing late =
      let r : Round L = record { store = s.store; fits = λ n. true } in
      let h = do_catch_up ldb codec r (pos v.from) in
      let none_found : log_range v.from 0 s.stored ≡ [] = rw (catching, v.starts_at) at nothing in
      let sent =
        do_catch_up-sent ldb codec codes entries r v.from s.stored leveldb v.in_width v.held in
      let last : next h.last_at ≡ pos 1 =
        do_catch_up-last_at ldb codec codes entries r v.from s.stored leveldb v.in_width v.held
        ∙ ap (λ ms. pos (suc (last_of 0 ms))) none_found in
      let locked =
        do_catch_up-locked ldb codec codes entries r v.from s.stored leveldb v.in_width v.held
          (λ n. refl) in
      let (subs, starts, taken, listed) =
        one_round-taken ldb codec codes entries leveldb c start (λ n. true) s v catching in
      let t = after_round s h subs starts in
      let (out, done, here) =
        publish_to-listed c m true (next h.last_at) subs starts (rw locked at listed) in
      let wanted : on_channel c out ≡ m ∷ [] = here ∙ rw (last, from_one m late) refl in
      (
        record t { pending = none; sent = t.sent ++ on_channel c out },
        ap (λ o. o >>= take_turns ldb codec c (publish ∷ [])) taken
            ∙ ap (λ p. when_pending c p t >>= take_turns ldb codec c []) wait
            ∙ ap (λ o. publish_done c t o >>= take_turns ldb codec c []) done,
        ap (λ r. (s.sent ++ h.sent) ++ r) wanted
            ∙ ap (λ r. (s.sent ++ r) ++ (m ∷ [])) (sent ∙ none_found)
            ∙ ap (λ r. r ++ (m ∷ [])) (append-nil s.sent),
      )

  -- A subscriber with a channel of its own asks for the messages from a time below 10^13 on, at a hub
  -- whose arrays of subscribers have one length and whose store holds a log. Messages come in, in
  -- increasing order of their times and behind that log, with times up to 2262, none before the time
  -- asked for, nor at 0; the goroutine that catches up and the processor take turns in any order, no
  -- round finds nothing to send while a message waits to be published, and this leads to a state in
  -- which the subscriber is still catching up, nothing is left for it to find, and the message that was
  -- stored last, not before the time asked for nor at 0 either, waits to be published. If a round with
  -- room in the channel comes next, and the message is published then, the subscriber, which has been
  -- sent it already, is sent it again.
  pub take_turns-sent_again :
      (ts : List Turn) (l : L) (log : List RfMessage) (waits : Option RfMessage) (subs : List ℕ)
      (starts : List ℤ) (s : HandOver L) (m : RfMessage)
      → start < 10000000000000
      → IsLog codec log (entries l)
      → IsLastOf waits log
      → occurs c subs ≡ false
      → length subs ≡ length starts
      → All (IsIncoming start) (incoming ts)
      → IsOrdered (log ++ incoming ts)
      → IsFair ldb codec c ts (asked_from l log waits (pos start) subs starts)
      → take_turns ldb codec c ts (asked_from l log waits (pos start) subs starts) ≡ some s
      → s.is_live ≡ false
      → left_over s ≡ []
      → s.pending ≡ some m
      → start ≤ time m
      → 0 < time m
      → (earlier : List RfMessage) × (s' : HandOver L) × (s.sent
          ≡ log_range start 0 earlier ++ (m ∷ []))
        × (take_turns ldb codec c (one_round (λ n. true) ∷ publish ∷ []) s ≡ some s')
        × (s'.sent ≡ log_range start 0 earlier ++ (m ∷ m ∷ []))
  take_turns-sent_again ts l log waits subs starts s m hs v newest gone e comes ord fair run
        catching nothing wait wanted late =
      let asking =
        asked_from-IsInStep ldb codec codes entries leveldb c start l log waits subs starts
          (incoming ts) hs v newest gone e ord in
      let (s2, run2, v2) =
        take_turns-IsInStep ldb codec codes entries leveldb c start ts _ asking fair comes ord in
      let same : s2 ≡ s = cc (run, run2) in
      let in_step = subst (IsInStep codec entries c start) same v2 in
      let (s', done, again) = round-publish s m in_step catching wait nothing late in
      let (earlier, once) = sent_once s m in_step wait nothing wanted in
      (earlier, s', once, done, again ∙ twice (log_range start 0 earlier) m s.sent once)
    where
      twice :
          (xs : List RfMessage) (m : RfMessage) (sent : List RfMessage)
          → sent ≡ xs ++ (m ∷ [])
          → sent ++ (m ∷ []) ≡ xs ++ (m ∷ m ∷ [])
      twice xs m sent e = ap (λ r. r ++ (m ∷ [])) e ∙ append_assoc xs (m ∷ []) (m ∷ [])
