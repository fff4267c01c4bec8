-- ===== src/Database/Messages/HandOver.antt =====
-- hub/database/rf_subscribe.go and rfmessage.go: a new subscriber catches up while the processor stores
-- messages and publishes them. The goroutines take turns in steps: PutRFMessage stores first and
-- publishes later, when it gets the lock, and a round of catchUpRFSubscribe may come between the two.
-- A round is one step, also when it loses the lock: it goes on with the entries that its iterator has
-- begun with, and only it sends on the new channel then. A message that is published counts as sent
-- once RFPublish sends it; whether the channel's reader takes it is the matter of Rpc/Streams.
use widuino.Base.{
  ℕ, List, [], ◌∷◌, ◌++◌, Option, none, some, Bool, true, false, not, ◌||◌, ◌==◌, length,
  if◌then◌else◌,
}
use widuino.Base.Int.{ℤ, next}
use widuino.Gears.{RfMessage}
use widuino.Database.{LevelDb, Codec}
use widuino.Database.Failure.{DbError}
use widuino.Database.Subscribers.{CatchUp, publish_to}
use widuino.Database.Messages.{stamped, put_rf_message}
use widuino.Database.Messages.CatchUp.{sent_at, do_catch_up}

-- The database and the two goroutines. `stored` lists what has been stored, for the specification;
-- `pending` is the message that the processor has stored and not yet published; `last_at` is where the
-- next round starts, and when `is_live` where the subscription started; `sent` is what the channel of
-- the new subscriber has been sent.
pub record HandOver (L : Type 0) : Type 0 where
  pub store : L
  pub stored : List RfMessage
  pub pending : Option RfMessage
  pub last_at : ℤ
  pub is_live : Bool
  pub subs : List ℕ
  pub starts : List ℤ
  pub sent : List RfMessage

-- A step: the processor takes the next message, with the time of the clock; or it gets the lock and
-- publishes; or the subscriber's goroutine gets the lock, and the channel has room for some messages.
pub data Turn : Type 0 where
  store_one : ℤ → RfMessage → Turn
  publish : Turn
  one_round : (ℕ → Bool) → Turn

-- What is sent on one of the channels.
abbrev pub on_channel {ℓ} : {M : Type ℓ} → ℕ → List (ℕ × M) → List M
on_channel c [] = []
on_channel c ((d, m) ∷ out) = let rest = on_channel c out in if d == c then m ∷ rest else rest

infixl 5 ◌>>=◌
abbrev pub ◌>>=◌ {ℓ κ} : {A : Type ℓ} {B : Type κ} → Option A → (A → Option B) → Option B
none >>= k = none
some a >>= k = k a

module _ {L : Type 0} where
  -- An error is logged, and the message is lost.
  abbrev pub put_done : HandOver L → L × (Option DbError × Option RfMessage) → HandOver L
  put_done s (l, (e, none)) = record s { store = l }
  put_done s (l, (e, some m)) = record s {
    store = l;
    stored = s.stored ++ (m ∷ []);
    pending = some m;
  }

  -- A subscriber has asked for the messages from `start` on; one may be waiting to be published.
  abbrev pub asked_from : L → List RfMessage → Option RfMessage → ℤ → List ℕ → List ℤ → HandOver L
  asked_from l log waiting start subs starts = record {
    store = l;
    stored = log;
    pending = waiting;
    last_at = start;
    is_live = false;
    subs = subs;
    starts = starts;
    sent = [];
  }

module _ {L : Type 0} (c : ℕ) where
  abbrev pub publish_done : HandOver L → Option (List (ℕ × RfMessage)) → Option (HandOver L)
  publish_done s none = none
  publish_done s (some out) = some (record s { pending = none; sent = s.sent ++ on_channel c out })

  abbrev pub when_pending : Option RfMessage → HandOver L → Option (HandOver L)
  when_pending none s = some s
  when_pending (some m) s = publish_done s (publish_to sent_at m s.subs s.starts)

  -- A round that has kept the lock ends with the subscription, one that has lost it with the next
  -- round's start. Arrays of different lengths end the program.
  abbrev pub round_done : HandOver L → CatchUp RfMessage → Option (HandOver L)
  round_done s h =
      let t = record s {
        sent = s.sent ++ h.sent;
        last_at = next h.last_at;
        is_live = h.locked;
        subs = if h.locked then s.subs ++ (c ∷ []) else s.subs;
        starts = if h.locked then s.starts ++ (next h.last_at ∷ []) else s.starts;
      } in
      if not h.locked || length t.subs == length t.starts then some t else none

module _ {L : Type 0} (ldb : LevelDb L) (codec : Codec RfMessage) (c : ℕ) where
  -- The processor takes no other message while one waits to be published.
  abbrev pub when_free : Option RfMessage → ℤ → RfMessage → HandOver L → HandOver L
  when_free (some p) now m s = s
  when_free none now m s = put_done s (put_rf_message ldb codec now s.store m)

  -- The goroutine has returned when the subscription has begun.
  abbrev pub when_catching : Bool → (ℕ → Bool) → HandOver L → Option (HandOver L)
  when_catching true fits s = some s
  when_catching false fits s =
      round_done c s (do_catch_up ldb codec (record { store = s.store; fits = fits }) s.last_at)

  unfoldable pub take_turn : Turn → HandOver L → Option (HandOver L)
  take_turn (store_one now m) s = some (when_free s.pending now m s)
  take_turn publish s = when_pending c s.pending s
  take_turn (one_round fits) s = when_catching s.is_live fits s

  unfoldable pub take_turns : List Turn → HandOver L → Option (HandOver L)
  take_turns [] s = some s
  take_turns (t ∷ ts) s = do s' ← take_turn t s; take_turns ts s'

-- The messages that come in, each with its time or the clock's.
abbrev pub incoming : List Turn → List RfMessage
incoming [] = []
incoming (store_one now m ∷ ts) = stamped now m ∷ incoming ts
incoming (publish ∷ ts) = incoming ts
incoming (one_round fits ∷ ts) = incoming ts
