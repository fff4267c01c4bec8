-- ===== src/Database/Tests.antt =====
-- The theorems on the database at a small store, kept as a sorted list of its entries.
use widuino.Base.{
  ℕ, List, [], ◌∷◌, Option, none, some, Bool, true, false, ◌≡◌, refl, subst, arith, ◌==◌, length,
  if◌then◌else◌,
}
use widuino.Base.Int.{ℤ, pos, negsuc}
use widuino.Base.Dict.{Dict, lookup, bytes_same, bytes_key}
use widuino.Gears.{RfMessage}
use widuino.Database.{LevelDb, Codec, IsLevelDb, insert_sorted, in_range, as_fetched}
use widuino.Database.Store.{put}
use widuino.Base.Decimal.{pad_int, low_digits, digit_count}
use widuino.Database.Messages.{no_message, gen_rf_key, put_rf_message, process_messages, rf_iterate}
use widuino.Database.Messages.Log.{log_insert, log_range, fold_all, IsCodec, IsLog}
use widuino.Database.Messages.Processed.{with_messages, Among, process_messages-IsLog}
use widuino.Database.Messages.Refines.{put_rf_message-IsLog}
use widuino.Database.Messages.InOrder.{IsSorted, rf_iterate-log}
use widuino.Database.Messages.Order.{IsOrdered}
use widuino.Database.Messages.CatchUp.{Round, sent_at}
use widuino.Database.Messages.Rounds.{IsHistory, CaughtUp, catch_up-ends}
use widuino.Database.Subscribers.{publish_to, rf_unsubscribe}
use widuino.Database.Subscribers.Laws.{occurs, without, rf_unsubscribe-publish_to}

abbrev pub Table : Type 0
Table = Dict (List ℕ) (List ℕ)

abbrev removed : List ℕ → Table → Table
removed k [] = []
removed k ((j, d) ∷ l) = let rest = removed k l in if bytes_same j k then l else (j, d) ∷ rest

abbrev pub table_db : LevelDb Table
table_db = record {
  get = λ l k. as_fetched (lookup k l);
  put = λ l k d. some (insert_sorted k d l);
  delete = λ l k. removed k l;
  range = λ l from limit. in_range from limit l;
}

abbrev pub same_table : Table → Table
same_table l = l

pub table_db-IsLevelDb : IsLevelDb table_db same_table
table_db-IsLevelDb = record {
  get_entry = λ l k. refl;
  put_entry = λ l l' k d e. cc;
  range_entries = λ l from limit. refl;
}

-- A codec that writes the fields one after the other.
abbrev sign : ℤ → ℕ
sign (pos n) = 0
sign (negsuc n) = 1

abbrev size : ℤ → ℕ
size (pos n) = n
size (negsuc n) = n

abbrev pub bit : Bool → ℕ
bit b = if b then 1 else 0

abbrev pub fields : RfMessage → List ℕ
fields m = sign m.at ∷ size m.at ∷ m.group ∷ m.node ∷ bit m.do_ack ∷ m.kind ∷ m.payload

abbrev of_fields : List ℕ → RfMessage → Option RfMessage
of_fields (s ∷ n ∷ g ∷ o ∷ a ∷ k ∷ payload) v = some (record {
  at = if s == 0 then pos n else negsuc n;
  group = g;
  node = o;
  do_ack = a == 1;
  kind = k;
  payload = payload;
})
of_fields _ v = none

abbrev pub field_codec : Codec RfMessage
field_codec = record { encode = λ m. some (fields m); decode = of_fields }

of_fields-fields :
    (at : ℤ) (g o : ℕ) (a : Bool) (k : ℕ) (payload : List ℕ) (v : RfMessage)
    → of_fields
        (fields (record { at = at; group = g; node = o; do_ack = a; kind = k; payload = payload }))
        v
      ≡ some (record { at = at; group = g; node = o; do_ack = a; kind = k; payload = payload })
of_fields-fields (pos n) g o true k payload v = refl
of_fields-fields (pos n) g o false k payload v = refl
of_fields-fields (negsuc n) g o true k payload v = refl
of_fields-fields (negsuc n) g o false k payload v = refl

pub field_codec-IsCodec : IsCodec field_codec
field_codec-IsCodec m d e =
    let same : fields m ≡ d = cc e in
    subst (λ x. of_fields x no_message ≡ some m) same
      (of_fields-fields m.at m.group m.node m.do_ack m.kind m.payload no_message)

abbrev pub message : RfMessage
message = record {
  at = pos 1400000000000;
  group = 212;
  node = 3;
  do_ack = false;
  kind = 4;
  payload = 71 ∷ 69 ∷ [];
}

pub empty-IsLog : IsLog field_codec [] []
unfolding IsLog
empty-IsLog = tt

stored :
    (l : Table) × (put_rf_message table_db field_codec (pos 7) [] message
      ≡ (l, (none, some message)))
unfolding put_rf_message put
stored = (_, refl)

held : IsLog field_codec (log_insert message []) stored.0
held =
    (put_rf_message-IsLog table_db field_codec field_codec-IsCodec same_table (pos 7) [] stored.0
      message (some message) [] table_db-IsLevelDb (refl, omega arith) empty-IsLog stored.1).0

-- The message comes in twice, the second time with the clock's time.
abbrev messages_in : List (ℤ × RfMessage)
messages_in = (pos 7, message) ∷ (pos 7, record message { at = pos 0 }) ∷ []

process_messages-IsLog_example :
    let (l', out) = process_messages table_db field_codec [] messages_in in
    Among messages_in out × IsLog field_codec (with_messages out []) l'
process_messages-IsLog_example =
    process_messages-IsLog table_db field_codec field_codec-IsCodec same_table [] [] messages_in
      table_db-IsLevelDb ((refl, omega arith), ((refl, omega arith), tt)) empty-IsLog

abbrev two_messages : List RfMessage
two_messages = message ∷ record message { at = pos 1400000000005 } ∷ []

abbrev two_entries : Table
two_entries =
    (gen_rf_key (pos 1400000000000), fields message)
    ∷ (gen_rf_key (pos 1400000000005), fields (record message { at = pos 1400000000005 }))
    ∷ []

two-IsLog : IsLog field_codec two_messages two_entries
unfolding IsLog
two-IsLog = (
  record { timed = (refl, omega arith); key = refl; stored = refl },
  (record { timed = (refl, omega arith); key = refl; stored = refl }, tt),
)

two-IsSorted : IsSorted two_entries
unfolding gen_rf_key pad_int low_digits digit_count
two-IsSorted = ((refl, tt), (tt, tt))

rf_iterate-log_example :
    (rf_iterate table_db field_codec {H = List RfMessage} {E = Unit {0}}
        (pos 5)
        (pos 0)
        (λ m h. (m ∷ h, none))
        two_entries
        []
      ≡ (fold_all (λ m (h : List RfMessage). m ∷ h) [] (log_range 5 0 two_messages), none))
    × IsOrdered (log_range 5 0 two_messages)
rf_iterate-log_example =
    rf_iterate-log table_db field_codec field_codec-IsCodec {H = List RfMessage} {E = Unit {0}}
      same_table (λ m h. m ∷ h) 5 0 two_entries two_messages [] table_db-IsLevelDb (omega arith)
      (omega arith) two-IsLog two-IsSorted

abbrev round : Round Table
round = record { store = stored.0; fits = λ n. true }

one_round : IsHistory table_db field_codec field_codec-IsCodec same_table [] (round ∷ [])
unfolding IsHistory log_insert
one_round = (log_insert message [], held, (tt, tt), tt)

catch_up-ends_example :
    CaughtUp table_db field_codec field_codec-IsCodec same_table (round ∷ []) 5 0 5 []
catch_up-ends_example =
    catch_up-ends table_db field_codec field_codec-IsCodec same_table 5 0 (round ∷ []) round
      table_db-IsLevelDb (omega arith) one_round refl (λ n. refl)

rf_unsubscribe-publish_to_example :
    (subs : List ℕ) × (starts : List ℤ) × (out : List (ℕ × RfMessage)) × (rf_unsubscribe 2
        (1 ∷ 2 ∷ 3 ∷ [])
        (pos 5 ∷ pos 0 ∷ pos 7 ∷ [])
      ≡ some ((subs, starts), true))
    × (length subs ≡ length starts)
    × (occurs 2 subs ≡ false)
    × (publish_to sent_at message (1 ∷ 2 ∷ 3 ∷ []) (pos 5 ∷ pos 0 ∷ pos 7 ∷ []) ≡ some out)
    × (publish_to sent_at message subs starts ≡ some (without 2 out))
rf_unsubscribe-publish_to_example =
    rf_unsubscribe-publish_to sent_at 2 message (1 ∷ 2 ∷ 3 ∷ []) (pos 5 ∷ pos 0 ∷ pos 7 ∷ []) refl
      refl

-- "t", a sensor with one subscriber.
