-- ===== src/Database/Messages/Rounds.antt =====
-- hub/database/rf_subscribe.go, `catchUpRFSubscribe`: catching up while others store messages.
use widuino.Base.{ℕ, zero, suc, ◌≤◌, ◌<◌, List, [], ◌∷◌, ◌++◌, Option, none, some, true}
use widuino.Base.{
  ◌≡◌, ◌≢◌, refl, sym, ap, subst, ◌∙◌, inl, inr, arith, All, Bool-cases, append_assoc, get_elem?,
}
use widuino.Base.Dict.{Dict}
use widuino.Base.Int.{ℤ, pos, next}
use widuino.Gears.{RfMessage}
use widuino.Database.{LevelDb, Codec, IsLevelDb}
use widuino.Database.Subscribers.{CatchUp}
use widuino.Database.Messages.Log.{time, log_range, IsTimed, IsCodec, IsLog}
use widuino.Database.Messages.CatchUp.{Round, do_catch_up, catch_up, last_of, log_range-IsTimed}
use widuino.Database.Messages.CatchUp.{
  do_catch_up-sent, do_catch_up-locked, do_catch_up-some, do_catch_up-last_at,
}
use widuino.Database.Messages.Order.{IsOrdered, log_range-next}

pub last_of-small :
    (t : ℕ) (ms : List RfMessage)
    → t < 9999999999999
    → All IsTimed ms
    → suc (last_of t ms) < 10000000000000
last_of-small t [] h v = omega arith
last_of-small t (m ∷ ms) h v = last_of-small (time m) ms (omega (arith, v.0.1)) v.1

-- What the round of a number finds, if every round before it has lost the lock.
abbrev pub nth_round :
    {L : Type 0} → LevelDb L → Codec RfMessage → List (Round L) → ℤ → ℕ → Option (CatchUp RfMessage)
nth_round ldb codec [] last_at n = none
nth_round ldb codec (r ∷ rs) last_at zero = some (do_catch_up ldb codec r last_at)
nth_round ldb codec (r ∷ rs) last_at (suc n) =
    nth_round ldb codec rs (next (do_catch_up ldb codec r last_at).last_at) n

module _ {L : Type 0} (ldb : LevelDb L) (codec : Codec RfMessage) (codes : IsCodec codec) where
  module _ (entries : L → Dict (List ℕ) (List ℕ)) where
    -- From a log on, every round finds the log of the round before with later messages behind it.
    unfoldable pub IsHistory : List RfMessage → List (Round L) → Type 0
    IsHistory ms [] = Unit
    IsHistory ms (r ∷ rs) =
        (later : List RfMessage) × IsLog codec (ms ++ later) (entries r.store)
        × IsOrdered (ms ++ later)
        × IsHistory (ms ++ later) rs

    -- How catching up ends: in which round, what its log was, what that round found, and what has been
    -- sent over all rounds, behind `before`.
    pub record CaughtUp (rs : List (Round L)) (start n : ℕ) (s : ℕ) (before : List RfMessage)
        : Type 0 where
      pub sent : List RfMessage
      pub from : ℤ
      pub last_round : ℕ
      pub round : Round L
      pub log : List RfMessage
      pub ended : catch_up ldb codec rs (pos s) ≡ some (sent, from)
      pub in_time : last_round ≤ n
      pub at_round : get_elem? rs last_round ≡ some round
      pub holds : IsLog codec log (entries round.store)
      pub complete : before ++ sent ≡ log_range start 0 log
      pub rounds_before : List RfMessage
      pub found : CatchUp RfMessage
      pub by_last_round : nth_round ldb codec rs (pos s) last_round ≡ some found
      pub kept_lock : found.locked ≡ true
      pub in_two : sent ≡ rounds_before ++ found.sent
      pub goes_live : from ≡ pos (suc (last_of 0 found.sent))

    module _ (leveldb : IsLevelDb ldb entries) (start : ℕ) where
      -- What has been handed out up to a time, and what is to come, make up any later log.
      abbrev IsGapless : ℕ → List RfMessage → Type 0
      IsGapless s ms =
          (later : List RfMessage)
          → IsOrdered (ms ++ later)
          → log_range start 0 (ms ++ later) ≡ log_range start 0 ms ++ log_range s 0 (ms ++ later)

      ends_here :
          (s n : ℕ) (ms later : List RfMessage) (r : Round L) (rs : List (Round L))
          → s < 10000000000000
          → IsGapless s ms
          → IsLog codec (ms ++ later) (entries r.store)
          → IsOrdered (ms ++ later)
          → (do_catch_up ldb codec r (pos s)).locked ≡ true
          → CaughtUp (r ∷ rs) start n s (log_range start 0 ms)
      unfolding catch_up
      ends_here s n ms later r rs hs gap v ord locked = record {
        sent = log_range s 0 (ms ++ later);
        from = next (do_catch_up ldb codec r (pos s)).last_at;
        last_round = 0;
        round = r;
        log = ms ++ later;
        ended =
            rw (locked, do_catch_up-sent ldb codec codes entries r s (ms ++ later) leveldb hs v);
        in_time = omega arith;
        at_round = refl;
        holds = v;
        complete = sym (gap later ord);
        rounds_before = [];
        found = do_catch_up ldb codec r (pos s);
        by_last_round = refl;
        kept_lock = locked;
        in_two = sym (do_catch_up-sent ldb codec codes entries r s (ms ++ later) leveldb hs v);
        goes_live =
            do_catch_up-last_at ldb codec codes entries r s (ms ++ later) leveldb hs v
            ∙ ap (λ l. pos (suc (last_of 0 l)))
                (sym (do_catch_up-sent ldb codec codes entries r s (ms ++ later) leveldb hs v));
      }

      goes_on :
          (s : ℕ) (ms later : List RfMessage)
          → IsGapless s ms
          → IsOrdered (ms ++ later)
          → log_range s 0 (ms ++ later) ≢ []
          → IsGapless (suc (last_of 0 (log_range s 0 (ms ++ later)))) (ms ++ later)
      goes_on s ms later gap ord some_left more ord' =
          let e : (ms ++ later) ++ more ≡ ms ++ (later ++ more) = append_assoc ms later more in
          ap (log_range start 0) e
          ∙ gap (later ++ more) (subst IsOrdered e ord')
          ∙ ap (λ l. log_range start 0 ms ++ log_range s 0 l) (sym e)
          ∙ ap (λ l. log_range start 0 ms ++ l) (log_range-next s (ms ++ later) more ord' some_left)
          ∙ sym (
              append_assoc (log_range start 0 ms) (log_range s 0 (ms ++ later)) (
                log_range (suc (last_of 0 (log_range s 0 (ms ++ later)))) 0
                  ((ms ++ later) ++ more)))
          ∙ ap
              (λ l.
                l
                ++ log_range (suc (last_of 0 (log_range s 0 (ms ++ later)))) 0
                    ((ms ++ later) ++ more))
              (sym (gap later ord))

      catch_up-from :
          (s n : ℕ) (ms : List RfMessage) (rs : List (Round L)) (r : Round L)
          → s < 10000000000000
          → IsGapless s ms
          → IsHistory ms rs
          → get_elem? rs n ≡ some r
          → ((k : ℕ) → r.fits k ≡ true)
          → CaughtUp rs start n s (log_range start 0 ms)
      unfolding IsHistory catch_up
      catch_up-from s n ms [] r hs gap h at room = cc
      catch_up-from s zero ms (r0 ∷ rs) r hs gap (later, v, ord, h) at room =
          let same : r ≡ r0 = cc at in
          ends_here s 0 ms later r0 rs hs gap v ord (
            do_catch_up-locked ldb codec codes entries r0 s (ms ++ later) leveldb hs v
              (subst (λ (x : Round L). (k : ℕ) → x.fits k ≡ true) same room))
      catch_up-from s (suc n) ms (r0 ∷ rs) r hs gap (later, v, ord, h) at room =
          elim (Bool-cases (do_catch_up ldb codec r0 (pos s)).locked) [
            | inl locked ↦ ends_here s (suc n) ms later r0 rs hs gap v ord locked
            | inr lost ↦
                let chunk = log_range s 0 (ms ++ later) in
                let sent =
                  do_catch_up-sent ldb codec codes entries r0 s (ms ++ later) leveldb hs v in
                let last =
                  do_catch_up-last_at ldb codec codes entries r0 s (ms ++ later) leveldb hs v in
                let some_left =
                  do_catch_up-some ldb codec codes entries r0 s (ms ++ later) leveldb hs v lost in
                let small =
                  last_of-small 0 chunk (omega arith)
                    (log_range-IsTimed codec s 0 (ms ++ later) (entries r0.store) v) in
                let c =
                  catch_up-from (suc (last_of 0 chunk)) n (ms ++ later) rs r small
                    (goes_on s ms later gap ord some_left) h at room in
                record {
                  sent = chunk ++ c.sent;
                  from = c.from;
                  last_round = suc c.last_round;
                  round = c.round;
                  log = c.log;
                  ended = rw (lost, last, sent, c.ended);
                  in_time = omega (arith, c.in_time);
                  at_round = c.at_round;
                  holds = c.holds;
                  complete =
                      sym (append_assoc (log_range start 0 ms) chunk c.sent)
                      ∙ ap (λ l. l ++ c.sent) (sym (gap later ord))
                      ∙ c.complete;
                  rounds_before = chunk ++ c.rounds_before;
                  found = c.found;
                  by_last_round =
                      ap (λ from. nth_round ldb codec rs from c.last_round) last ∙ c.by_last_round;
                  kept_lock = c.kept_lock;
                  in_two =
                      ap (λ l. chunk ++ l) c.in_two
                      ∙ sym (append_assoc chunk c.rounds_before c.found.sent);
                  goes_live = c.goes_live;
                }
          ]

    -- Catching up, from a time below 10^13 on, ends, at the latest in a round in which the channel has
    -- room for every message, and until then each round may find more messages, later than those
    -- stored before. It ends in a round that keeps the lock. Over all rounds the subscriber has been
    -- sent, once and in order, exactly the messages from its start on that the store holds in that
    -- last round; they end with those that the last round has sent, and the subscription begins one
    -- millisecond after the last of these, or at 1 if the last round has sent none.
    pub catch_up-ends :
        (start n : ℕ) (rs : List (Round L)) (r : Round L)
        → IsLevelDb ldb entries
        → start < 10000000000000
        → IsHistory [] rs
        → get_elem? rs n ≡ some r
        → ((k : ℕ) → r.fits k ≡ true)
        → CaughtUp rs start n start []
    catch_up-ends start n rs r leveldb hs h at room =
        let gap : IsGapless leveldb start start [] = λ later ord. unfold log_range in refl in
        let c = catch_up-from leveldb start start n [] rs r hs gap h at room in
        let none_yet : log_range start 0 [] ≡ [] = unfold log_range in refl in
        subst (CaughtUp rs start n start) none_yet c
