-- ===== src/HubMain/EndToEnd.antt =====
-- hub/udpgw.go, hub/main.go and hub/database: the way of a data packet, from the network through the
-- gateway, the forwarding goroutine and the database's processor to a subscriber.
mod Tests
use widuino.Base.{
  ℕ, zero, suc, ◌≤◌, ◌<◌, List, [], ◌∷◌, ◌++◌, map, length, All, Option, none, some, Bool, true,
  ◌==◌, if◌then◌else◌,
}
use widuino.Base.{
  ◌≡◌, refl, sym, ap, subst, ◌∙◌, inl, inr, arith, Bool-cases, append-nil, append_assoc,
}
use widuino.Base.Dict.{Dict, insert, nat_key}
use widuino.Base.Int.{ℤ, pos}
use widuino.Gears.{RfMessage}
use widuino.Gateway.{UdpAddr, Packet, Gateway, BootServer, receive, receive_all}
use widuino.Gateway.Receive.{datagram, message_in, receive-data}
use widuino.Database.{LevelDb, Codec, IsLevelDb}
use widuino.Database.Store.{put}
use widuino.Database.Messages.{gen_rf_key, stamped, put_rf_message, process_messages}
use widuino.Database.Messages.Keys.{last_time}
use widuino.Database.Messages.Log.{time, log_range, IsTimed, IsCodec, IsLog}
use widuino.Database.Messages.Processed.{with_messages, process_messages-IsLog}
use widuino.Database.Messages.CatchUp.{Round, catch_up, last_of, catch_up-log}
use widuino.HubMain.{Process, Processor, Hub, started, Reach}
use widuino.HubMain.Finish.{AlwaysReturns, hub_can_finish}

-- A data packet: when it came and from where, its header, and what is behind that.
pub record DataPacket : Type 0 where
  pub now : ℕ
  pub src : UdpAddr
  pub flags : ℕ
  pub group : ℕ
  pub node : ℕ
  pub rest : List ℕ

abbrev pub as_packet : DataPacket → Packet
as_packet p = record { now = p.now; src = p.src; bytes = p.flags ∷ p.group ∷ p.node ∷ p.rest }

abbrev pub message_of : DataPacket → RfMessage
message_of p = message_in p.now p.group p.node p.rest

-- A packet of type 0 or 1 and of at most 69 bytes, at a time from 1970 to 2262.
abbrev pub IsData : DataPacket → Type 0
IsData p = (p.flags ≤ 1) × (length p.rest ≤ 66) × (0 < p.now) × (p.now ≤ last_time)

abbrev after_data : {S : Type 0} → Gateway S → DataPacket → Gateway S
after_data u p = record u {
  groups = insert p.group p.src u.groups;
  sent = u.sent ++ (if p.flags == 1 then datagram p.src (6 ∷ p.group ∷ p.node ∷ []) ∷ [] else []);
  recv = u.recv ++ (message_of p ∷ []);
}

module _ {S : Type 0} (boot : BootServer S) where
  receive_all-first :
      (u u' : Gateway S) (p : Packet) (ps : List Packet)
      → receive boot u p ≡ some u'
      → receive_all boot u (p ∷ ps) ≡ receive_all boot u' ps
  unfolding receive_all
  receive_all-first u u' p ps e = rw (receive_all, e) refl

  receive_all-data :
      (u : Gateway S) (ps : List DataPacket)
      → All IsData ps
      → (u' : Gateway S) × (receive_all boot u (map as_packet ps) ≡ some u')
        × (u'.recv ≡ u.recv ++ map message_of ps)
  unfolding receive_all
  receive_all-data u [] v = (u, refl, sym (append-nil u.recv))
  receive_all-data u (p ∷ ps) v =
      let now = receive-data boot u p.now p.src p.flags p.group p.node p.rest v.0.0 v.0.1 in
      let (u', done, passed) = receive_all-data (after_data u p) ps v.1 in
      (
        u',
        receive_all-first u _ (as_packet p) (map as_packet ps) now ∙ done,
        passed ∙ append_assoc u.recv (message_of p ∷ []) (map message_of ps),
      )

message_in-at : (now g n : ℕ) (rest : List ℕ) → (message_in now g n rest).at ≡ pos now
message_in-at now g n [] = elim (Bool-cases (n == 31)) [
  | inl old ↦ rw old refl
  | inr new ↦ rw new refl
]
message_in-at now g n (k ∷ rest) = elim (Bool-cases (n == 31)) [
  | inl old ↦ rw old refl
  | inr new ↦ rw new refl
]

-- A message with a time, each with a clock that is not looked at.
abbrev IsStamped : RfMessage → Type 0
IsStamped m = IsTimed m × (0 < time m)

stamped-IsStamped : (now : ℤ) (m : RfMessage) → IsStamped m → stamped now m ≡ m
stamped-IsStamped now m v = of_time m.at (time m) v.0.0 v.1
  where
    of_time :
        (at : ℤ) (t : ℕ)
        → at ≡ pos t
        → 0 < t
        → stamped now (record m { at = at }) ≡ record m { at = at }
    of_time at zero e h = absurd (omega (arith, h))
    of_time at (suc t) e h = rw e refl

data_messages : (ps : List DataPacket) → All IsData ps → All IsStamped (map message_of ps)
data_messages [] v = tt
data_messages (p ∷ ps) v =
    let at = message_in-at p.now p.group p.node p.rest in
    (rw at ((refl, v.0.3), v.0.2), data_messages ps v.1)

-- A store that neither the codec nor LevelDB ever fails.
abbrev pub CanStore : {L : Type 0} → LevelDb L → Codec RfMessage → Type 0
CanStore {L} ldb codec =
    ((m : RfMessage) → (d : List ℕ) × (codec.encode m ≡ some d))
    × ((l : L) (k d : List ℕ) → (l' : L) × (ldb.put l k d ≡ some l'))

abbrev pub with_clock : (RfMessage → ℤ) → List RfMessage → List (ℤ × RfMessage)
with_clock clock ms = map (λ (m : RfMessage). (clock m, m)) ms

module _ {L : Type 0} (ldb : LevelDb L) (codec : Codec RfMessage) (clock : RfMessage → ℤ) where
  process_messages-all :
      (l : L) (ms : List RfMessage)
      → CanStore ldb codec
      → All IsStamped ms
      → (process_messages ldb codec l (with_clock clock ms)).1 ≡ ms
  unfolding process_messages put_rf_message put
  process_messages-all l [] can v = refl
  process_messages-all l (m ∷ ms) can v =
      let (d, coded) = can.0 m in
      let (l', written) = can.1 l (gen_rf_key m.at) d in
      rw (stamped-IsStamped (clock m) m v.0, coded, written)
        (ap (λ out. m ∷ out) (process_messages-all l' ms can v.1))

  with_clock-IsTimed :
      (ms : List RfMessage)
      → All IsStamped ms
      → All (λ (x : ℤ × RfMessage). IsTimed (stamped x.0 x.1)) (with_clock clock ms)
  with_clock-IsTimed [] v = tt
  with_clock-IsTimed (m ∷ ms) v =
      (rw (stamped-IsStamped (clock m) m v.0) v.0.0, with_clock-IsTimed ms v.1)

module _ {S L : Type 0} (boot : BootServer S) (ldb : LevelDb L) (codec : Codec RfMessage)
    (codes : IsCodec codec) where
  -- Data packets of 3 to 69 bytes, at times up to 2262 and not at 0, come in at a gateway that has
  -- passed nothing on yet; the database holds a log and never fails, and the hub's processors come back
  -- from every message, so that RFPublish never waits for room in a channel for ever.
  -- Then the gateway passes on one message for each packet, in order. Once the hub has received these,
  -- whatever its goroutines have done, they can run on until each processor has handled exactly these,
  -- in order. Given these, the database's processor publishes exactly these, whatever the clock says,
  -- and the store is then the log with these inserted one after the other, where a message takes the
  -- place of one with its own time. And a subscriber that asks later, from a time below 10^13 on and
  -- with room in its channel, is sent all of that log from this time on.
  pub packets-delivered :
      (u : Gateway S) (ps : List DataPacket) (s : Hub RfMessage)
      (entries : L → Dict (List ℕ) (List ℕ)) (l : L) (log : List RfMessage) (clock : RfMessage → ℤ)
      (start : ℕ) (returns : Process → List RfMessage → RfMessage → Bool)
      → AlwaysReturns returns
      → u.recv ≡ []
      → All IsData ps
      → Reach returns started s
      → s.received ≡ map message_of ps
      → IsLevelDb ldb entries
      → CanStore ldb codec
      → IsLog codec log (entries l)
      → start < 10000000000000
      → let ms = map message_of ps in
        let (l', out) = process_messages ldb codec l (with_clock clock ms) in
        let stored = log_range start 0 (with_messages ms log) in
        ((u' : Gateway S) × (receive_all boot u (map as_packet ps) ≡ some u') × (u'.recv ≡ ms))
        × ((t : Hub RfMessage) × Reach returns s t
            × (t.received ≡ ms)
            × All (λ (p : Processor RfMessage). p.handled ≡ ms) (t.told ++ t.untold))
        × (out ≡ ms)
        × IsLog codec (with_messages ms log) (entries l')
        × (catch_up ldb codec (record { store = l'; fits = λ n. true } ∷ []) (pos start)
            ≡ some (stored, pos (suc (last_of 0 stored))))
  packets-delivered u ps s entries l log clock start returns back none_yet legal r same leveldb can
        v hs =
      let ms = map message_of ps in
      let stamps = data_messages ps legal in
      let (u', done, passed) = receive_all-data boot u ps legal in
      let (t, way, kept_all, handled) = hub_can_finish returns back s r in
      let out = process_messages-all ldb codec clock l ms can stamps in
      let kept =
        (process_messages-IsLog ldb codec codes entries l log (with_clock clock ms) leveldb
          (with_clock-IsTimed ldb codec clock ms stamps) v).1 in
      let held = (rw out at kept) in
      (
        (u', done, passed ∙ ap (λ r. r ++ ms) none_yet),
        (
          t,
          way,
          kept_all ∙ same,
          subst (λ r. All (λ (p : Processor RfMessage). p.handled ≡ r) (t.told ++ t.untold)) same
              handled,
        ),
        out,
        held,
        catch_up-log ldb codec codes entries
            (record {
              store = (process_messages ldb codec l (with_clock clock ms)).0;
              fits = λ n. true;
            })
            [] start (with_messages ms log) leveldb (λ n. refl) hs held,
      )
