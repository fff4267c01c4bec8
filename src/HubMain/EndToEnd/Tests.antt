-- ===== src/HubMain/EndToEnd/Tests.antt =====
-- The theorem on the way of a data packet at two packets, with the `booter` behind the gateway.
use widuino.Base.{suc, ◌<◌, List, [], ◌∷◌, ◌++◌, map, All, some, Bool, true, ◌≡◌, refl, arith}
use widuino.Base.Int.{pos}
use widuino.Gears.{RfMessage}
use widuino.Gateway.{Gateway, receive_all}
use widuino.Gateway.Tests.{relay, server, idle}
use widuino.Boot.Server.{Booter}
use widuino.Database.Tests.{table_db, same_table, table_db-IsLevelDb}
use widuino.Database.Tests.{field_codec, field_codec-IsCodec, fields, empty-IsLog}
use widuino.Database.{insert_sorted}
use widuino.Database.Messages.{process_messages}
use widuino.Database.Messages.Log.{log_range, IsLog}
use widuino.Database.Messages.Processed.{with_messages}
use widuino.Database.Messages.CatchUp.{catch_up, last_of}
use widuino.HubMain.{Process, Processor, channel_capacity, Hub, started, arrive, Reach, here, then}
use widuino.HubMain.EndToEnd.{
  DataPacket, as_packet, message_of, IsData, CanStore, with_clock, packets-delivered,
}

abbrev first_packet : DataPacket
first_packet = record {
  now = 1400000000000;
  src = relay;
  flags = 1;
  group = 212;
  node = 3;
  rest = 4 ∷ 71 ∷ [];
}

abbrev packets : List DataPacket
packets = first_packet ∷ record first_packet { now = 1400000000005; flags = 0 } ∷ []

abbrev messages : List RfMessage
messages = map message_of packets

abbrev both_in : Hub RfMessage
both_in = record started { received = messages; recv = messages }

abbrev returns_always : Process → List RfMessage → RfMessage → Bool
returns_always f done m = true

both_in-Reach : Reach returns_always started both_in
both_in-Reach =
    let none_in : 0 < channel_capacity = omega arith in
    let one_in : 1 < channel_capacity = omega arith in
    then (then here (arrive (message_of first_packet) none_in))
      (arrive (message_of (record first_packet { now = 1400000000005; flags = 0 })) one_in)

packets-IsData : All IsData packets
packets-IsData = (
  (omega arith, omega arith, omega arith, omega arith),
  ((omega arith, omega arith, omega arith, omega arith), tt),
)

table_db-CanStore : CanStore table_db field_codec
table_db-CanStore = ((λ m. (fields m, refl)), (λ l k d. (insert_sorted k d l, refl)))

packets-delivered_example :
    let (l', out) = process_messages table_db field_codec [] (with_clock (λ m. pos 7) messages) in
    let stored = log_range 5 0 (with_messages messages []) in
    ((u' : Gateway Booter) × (receive_all server idle (map as_packet packets) ≡ some u')
      × (u'.recv ≡ messages))
    × ((t : Hub RfMessage) × Reach returns_always both_in t
        × (t.received ≡ messages)
        × All (λ (p : Processor RfMessage). p.handled ≡ messages) (t.told ++ t.untold))
    × (out ≡ messages)
    × IsLog field_codec (with_messages messages []) l'
    × (catch_up table_db field_codec (record { store = l'; fits = λ n. true } ∷ []) (pos 5)
        ≡ some (stored, pos (suc (last_of 0 stored))))
packets-delivered_example =
    packets-delivered server table_db field_codec field_codec-IsCodec idle packets both_in
      same_table [] [] (λ m. pos 7) 5 returns_always (λ f done m. refl) refl packets-IsData
      both_in-Reach refl table_db-IsLevelDb table_db-CanStore empty-IsLog (omega arith)
