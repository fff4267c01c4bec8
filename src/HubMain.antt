-- ===== src/HubMain.antt =====
-- hub/main.go: the processors of received messages, and the goroutine of `main` that forwards every
-- message to each of them. Each constructor of a relation is one operation on a channel, and the
-- goroutines run in any order.
pub mod FanOut
pub mod Finish
pub mod EndToEnd
mod Tests
use widuino.Base.{ℕ, ◌<◌, List, [], ◌∷◌, ◌++◌, length, Option, none, some, Bool, true, ◌≡◌}

-- The functions that `main` registers: LogProcessor and the database's.
pub data Process : Type 0 where
  log_processor db_processor : Process

-- A registered processor: its channel, of capacity 10, the message that its goroutine has taken from
-- it and is at work on, and the messages that it is done with.
pub record Processor (M : Type 0) : Type 0 where
  pub process : Process
  pub queue : List M
  pub busy : Option M
  pub handled : List M

abbrev pub channel_capacity : ℕ
channel_capacity = 10

-- RegisterRecvProcessor on the array of processors.
abbrev pub register_recv_processor :
    {M : Type 0} → Process → List (Processor M) → List (Processor M)
register_recv_processor f ps =
    ps ++ (record { process = f; queue = []; busy = none; handled = [] } ∷ [])

-- `recv` is the gateway's channel. While a message is forwarded, `told` are the processors that have it
-- and `untold` those that are left; otherwise all are `untold`. `received` keeps what has come in.
pub record Hub (M : Type 0) : Type 0 where
  pub received : List M
  pub recv : List M
  pub current : Option M
  pub told : List (Processor M)
  pub untold : List (Processor M)

abbrev pub started : {M : Type 0} → Hub M
started = record {
  received = [];
  recv = [];
  current = none;
  told = [];
  untold = register_recv_processor db_processor (register_recv_processor log_processor []);
}

-- `returns` says of a message whether the processor's body comes back from it, behind the messages
-- that the processor is done with. PutRFMessage may not: RFPublish sends on the subscribers' channels.
module _ {M : Type 0} (returns : Process → List M → M → Bool) where
  -- The goroutine of one of the processors takes a message from its channel, or is done with it.
  pub data Takes : List (Processor M) → List (Processor M) → Type 0 where
    first :
        (p : Processor M) (ps : List (Processor M)) (m : M) (q : List M)
        → p.busy ≡ none
        → p.queue ≡ m ∷ q
        → Takes (p ∷ ps) (record p { queue = q; busy = some m } ∷ ps)
    returned :
        (p : Processor M) (ps : List (Processor M)) (m : M)
        → p.busy ≡ some m
        → returns p.process p.handled m ≡ true
        → Takes (p ∷ ps) (record p { busy = none; handled = p.handled ++ (m ∷ []) } ∷ ps)
    later : (p : Processor M) {ps qs : List (Processor M)} → Takes ps qs → Takes (p ∷ ps) (p ∷ qs)

  pub data Step (s : Hub M) : Hub M → Type 0 where
    arrive :
        (m : M)
        → length s.recv < channel_capacity
        → Step s (record s { recv = s.recv ++ (m ∷ []); received = s.received ++ (m ∷ []) })
    receive :
        (m : M) (r : List M)
        → s.current ≡ none
        → s.recv ≡ m ∷ r
        → Step s (record s { recv = r; current = some m })
    forward :
        (m : M) (p : Processor M) (ps : List (Processor M))
        → s.current ≡ some m
        → s.untold ≡ p ∷ ps
        → length p.queue < channel_capacity
        → Step s (record s {
          told = s.told ++ (record p { queue = p.queue ++ (m ∷ []) } ∷ []);
          untold = ps;
        })
    forwarded :
        (m : M)
        → s.current ≡ some m
        → s.untold ≡ []
        → Step s (record s { current = none; told = []; untold = s.told })
    told_takes : {ps : List (Processor M)} → Takes s.told ps → Step s (record s { told = ps })
    untold_takes : {ps : List (Processor M)} → Takes s.untold ps → Step s (record s { untold = ps })

  pub data Reach (s : Hub M) : Hub M → Type 0 where
    here : Reach s s
    then : {t u : Hub M} → Reach s t → Step t u → Reach s u
