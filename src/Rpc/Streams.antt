-- ===== src/Rpc/Streams.antt =====
-- hub/chanhandlers.go and gears/chancli.go: the goroutines that carry a subscription from the hub's
-- channel to the client's, beside the publishing of hub/database/rf_subscribe.go. A state has one
-- subscriber, which is there from the start with an empty channel: what its catch-up sends counts as
-- published. Each constructor of a relation is one operation on a channel, the lock or the
-- connection, and the goroutines run in any order.
pub mod Order
pub mod Deadlock
pub mod Delivery
mod Tests
use widuino.Base.{ℕ, ◌<◌, List, [], ◌∷◌, ◌++◌, length, Bool, true, false, ◌≡◌}
use widuino.Gears.{RfMessage, SensorDataValue}

-- The publisher: outside of RFPublish, or holding the lock with a message for the subscriber.
pub data Publisher (M : Type 0) : Type 0 where
  outside : Publisher M
  locked : M → Publisher M

-- The hub's goroutine: at the loop, in Send with a message, and after an error before RFUnsubscribe,
-- draining the channel, and returned, with the connection's channel closed.
pub data Copier (M : Type 0) : Type 0 where
  copying : Copier M
  sending : M → Copier M
  unsubscribing draining returned : Copier M

-- The client's goroutine: receiving, with a message for the client's channel, and returned, with the
-- channel closed.
pub data Receiver (M : Type 0) : Type 0 where
  receiving : Receiver M
  holding : M → Receiver M
  ended : Receiver M

-- `queue` is the hub's channel, of capacity 100, which is open while `subscribed`; `pipe` is what the
-- connection carries. `published` and `delivered` keep what has gone into the one channel and come
-- out of the other.
pub record Stream (M : Type 0) : Type 0 where
  pub published : List M
  pub publisher : Publisher M
  pub subscribed : Bool
  pub queue : List M
  pub copier : Copier M
  pub pipe : List M
  pub receiver : Receiver M
  pub delivered : List M

abbrev pub capacity : ℕ
capacity = 100

abbrev pub begin : {M : Type 0} → Stream M
begin = record {
  published = [];
  publisher = outside;
  subscribed = true;
  queue = [];
  copier = copying;
  pipe = [];
  receiver = receiving;
  delivered = [];
}

module _ {M : Type 0} where
  -- RFPublish: it takes the lock and finds the subscriber; and it sends, when there is room.
  pub data Publish (s : Stream M) : Stream M → Type 0 where
    lock :
        (m : M)
        → s.publisher ≡ outside
        → s.subscribed ≡ true
        → Publish s (record s { publisher = locked m })
    send :
        (m : M)
        → s.publisher ≡ locked m
        → length s.queue < capacity
        → Publish s (record s {
          publisher = outside;
          queue = s.queue ++ (m ∷ []);
          published = s.published ++ (m ∷ []);
        })

  -- The goroutine of HandleRFSubRequest. Send puts a message on the connection or fails;
  -- after a failure RFUnsubscribe takes the lock, and what is left is drained.
  pub data Copy (s : Stream M) : Stream M → Type 0 where
    take :
        (m : M) (q : List M)
        → s.copier ≡ copying
        → s.queue ≡ m ∷ q
        → Copy s (record s { queue = q; copier = sending m })
    sent :
        (m : M)
        → s.copier ≡ sending m
        → Copy s (record s { copier = copying; pipe = s.pipe ++ (m ∷ []) })
    failed : (m : M) → s.copier ≡ sending m → Copy s (record s { copier = unsubscribing })
    unsubscribe :
        s.copier ≡ unsubscribing
        → s.publisher ≡ outside
        → Copy s (record s { subscribed = false; copier = draining })
    drain :
        (m : M) (q : List M)
        → s.copier ≡ draining
        → s.queue ≡ m ∷ q
        → Copy s (record s { queue = q })
    drained :
        s.copier ≡ draining
        → s.queue ≡ []
        → s.subscribed ≡ false
        → Copy s (record s { copier = returned })
    end_of_input :
        s.copier ≡ copying
        → s.queue ≡ []
        → s.subscribed ≡ false
        → Copy s (record s { copier = returned })

  -- The goroutine of the client's RFSubscribe. Receiving fails when the connection does.
  pub data Receive (s : Stream M) : Stream M → Type 0 where
    received :
        (m : M) (p : List M)
        → s.receiver ≡ receiving
        → s.pipe ≡ m ∷ p
        → Receive s (record s { pipe = p; receiver = holding m })
    not_received : s.receiver ≡ receiving → Receive s (record s { receiver = ended })
    handed_on :
        (m : M)
        → s.receiver ≡ holding m
        → Receive s (record s { receiver = receiving; delivered = s.delivered ++ (m ∷ []) })

  pub data Step (s t : Stream M) : Type 0 where
    publish : Publish s t → Step s t
    copy : Copy s t → Step s t
    receive : Receive s t → Step s t

  pub data Reach (s : Stream M) : Stream M → Type 0 where
    here : Reach s s
    then : {t u : Stream M} → Reach s t → Step t u → Reach s u

-- The goroutine of HandleSensorSubRequest repeats that of HandleRFSubRequest.
abbrev pub SensorCopy :
    {F : Type 0} → Stream (SensorDataValue F) → Stream (SensorDataValue F) → Type 0
SensorCopy = Copy

-- The goroutines of the client's SensorSubscribe and SensorRead repeat that of RFSubscribe.
abbrev pub SensorReceive :
    {F : Type 0} → Stream (SensorDataValue F) → Stream (SensorDataValue F) → Type 0
SensorReceive = Receive
