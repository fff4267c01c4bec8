-- ===== src/Database/Messages/Tests.antt =====
-- The theorems on catching up while messages are stored and published, at a small store.
use widuino.Base.{List, [], ◌∷◌, ◌++◌, none, some, true, false, ◌≡◌, refl, arith}
use widuino.Base.Int.{pos}
use widuino.Gears.{RfMessage}
use widuino.Database.Tests.{Table, table_db, same_table, table_db-IsLevelDb}
use widuino.Database.Tests.{field_codec, field_codec-IsCodec, message, fields, empty-IsLog}
use widuino.Base.Decimal.{pad_int, low_digits, digit_count}
use widuino.Database.{in_range, insert_sorted}
use widuino.Database.Store.{put, iterate}
use widuino.Database.Subscribers.{caught, publish_to}
use widuino.Database.Messages.{put_rf_message, rf_iterate, gen_rf_key}
use widuino.Database.Messages.CatchUp.{do_catch_up}
use widuino.Database.Messages.Log.{log_range, IsLog}
use widuino.Database.Messages.HandOver.{
  HandOver, Turn, store_one, publish, one_round, take_turn, take_turns, asked_from,
}
use widuino.Database.Messages.LeftOver.{left_over}
use widuino.Database.Messages.Turns.{IsFair}
use widuino.Database.Messages.ExactlyOnce.{take_turns-exactly_once}
use widuino.Database.Messages.Twice.{take_turns-sent_again}

-- A message comes in, a round without room finds it, it is published to others, and a later message
-- is found by the round that begins the subscription and published afterwards.
abbrev later_message : RfMessage
later_message = record message { at = pos 1400000000005 }

abbrev turns : List Turn
turns =
    store_one (pos 7) message
    ∷ one_round (λ n. false)
    ∷ publish
    ∷ store_one (pos 7) later_message
    ∷ one_round (λ n. true)
    ∷ publish
    ∷ []

abbrev asking : HandOver Table
asking = asked_from [] [] none (pos 5) (1 ∷ []) (pos 0 ∷ [])

turns-IsFair : IsFair table_db field_codec 2 turns asking
unfolding IsFair take_turn put_rf_message put do_catch_up rf_iterate iterate caught publish_to
    gen_rf_key pad_int low_digits digit_count insert_sorted in_range
turns-IsFair = (tt, ((λ catching nothing. cc), (tt, (tt, ((λ catching nothing. cc), (tt, tt))))))

-- Both messages have been sent when the last turn is over, and nothing is left over.
turns_end :
    (s : HandOver Table) × (take_turns table_db field_codec 2 turns asking ≡ some s)
    × (s.sent ≡ message ∷ later_message ∷ [])
    × (s.is_live ≡ true)
    × (left_over s ≡ [])
unfolding take_turns take_turn put_rf_message put do_catch_up rf_iterate iterate caught publish_to
    gen_rf_key pad_int low_digits digit_count insert_sorted in_range
turns_end = (_, refl, refl, refl, refl)

take_turns-exactly_once_example :
    (s : HandOver Table) × (take_turns table_db field_codec 2 turns asking ≡ some s)
    × IsLog field_codec s.stored s.store
    × (s.sent ++ left_over s ≡ log_range 5 0 s.stored)
    × ((s' : HandOver Table) × (take_turns table_db field_codec 2
            (publish ∷ one_round (λ n. true) ∷ [])
            s
          ≡ some s')
        × (s'.is_live ≡ true)
        × (s'.stored ≡ s.stored)
        × (s'.sent ≡ log_range 5 0 s.stored))
take_turns-exactly_once_example =
    take_turns-exactly_once table_db field_codec field_codec-IsCodec same_table table_db-IsLevelDb 2
      5 turns [] [] none (1 ∷ []) (pos 0 ∷ []) (omega arith) empty-IsLog (λ m e. cc) refl refl
      (
        ((refl, omega arith), omega arith, omega arith),
        (((refl, omega arith), omega arith, omega arith), tt),
      )
      ((omega arith, tt), (tt, tt)) turns-IsFair

-- The first two turns: the message is stored and caught up with, and waits to be published.
abbrev two_turns : List Turn
two_turns = store_one (pos 7) message ∷ one_round (λ n. false) ∷ []

abbrev waits_still : HandOver Table
waits_still = record {
  store = insert_sorted (gen_rf_key message.at) (fields message) [];
  stored = message ∷ [];
  pending = some message;
  last_at = pos 1400000000001;
  is_live = false;
  subs = 1 ∷ [];
  starts = pos 0 ∷ [];
  sent = message ∷ [];
}

two_turns-IsFair : IsFair table_db field_codec 2 two_turns asking
unfolding IsFair take_turn put_rf_message put do_catch_up rf_iterate iterate caught publish_to
    gen_rf_key pad_int low_digits digit_count insert_sorted in_range
two_turns-IsFair = (tt, ((λ catching nothing. cc), tt))

two_turns_end : take_turns table_db field_codec 2 two_turns asking ≡ some waits_still
unfolding take_turns take_turn put_rf_message put do_catch_up rf_iterate iterate caught publish_to
    gen_rf_key pad_int low_digits digit_count insert_sorted in_range
two_turns_end = refl

nothing_left : left_over waits_still ≡ []
unfolding log_range
nothing_left = refl

take_turns-sent_again_example :
    (earlier : List RfMessage) × (s' : HandOver Table) × (message ∷ []
      ≡ log_range 5 0 earlier ++ (message ∷ []))
    × (take_turns table_db field_codec 2 (one_round (λ n. true) ∷ publish ∷ []) waits_still
        ≡ some s')
    × (s'.sent ≡ log_range 5 0 earlier ++ (message ∷ message ∷ []))
take_turns-sent_again_example =
    take_turns-sent_again table_db field_codec field_codec-IsCodec same_table table_db-IsLevelDb 2 5
      two_turns [] [] none (1 ∷ []) (pos 0 ∷ []) waits_still message (omega arith) empty-IsLog
      (λ m e. cc) refl refl (((refl, omega arith), omega arith, omega arith), tt) (tt, tt)
      two_turns-IsFair two_turns_end refl nothing_left refl (omega arith) (omega arith)
