-- ===== src/Rpc/Upload.antt =====
-- hub/chanhandlers.go and gears/chancli.go: the goroutines that carry a sensor's values from the
-- client's channel to the hub's database. Each constructor of the relation is one operation, and the
-- goroutines run in any order.
pub mod Stored
use widuino.Base.{ℕ, ◌<◌, List, [], ◌∷◌, ◌++◌, length, Bool, true, false, ◌≡◌}
use widuino.Base.Int.{ℤ}

-- The client's goroutine: in its loop, and returned after an error or after the end of its input.
pub data Sender : Type 0 where
  looping stopped : Sender

-- `queue` is the channel that SensorSendData returned, of capacity 10, `input_closed` when the client
-- has closed it; `pipe` is what the connection carries, `pipe_closed` by dataSend.Close; and
-- `reading` says that the hub's goroutine runs. `given` and `stored` keep what has been put into the
-- channel and what has been put into the database, with the time of the clock.
pub record Upload (V D : Type 0) : Type 0 where
  pub given : List V
  pub queue : List V
  pub input_closed : Bool
  pub sender : Sender
  pub pipe : List V
  pub pipe_closed : Bool
  pub reading : Bool
  pub stored : List (ℤ × V)
  pub db : D

abbrev pub upload_capacity : ℕ
upload_capacity = 10

abbrev pub begin_upload : {V D : Type 0} → D → Upload V D
begin_upload db = record {
  given = [];
  queue = [];
  input_closed = false;
  sender = looping;
  pipe = [];
  pipe_closed = false;
  reading = true;
  stored = [];
  db = db;
}

-- `put` is PutSensorValue under the sensor's name, at a time of the clock.
module _ {V D : Type 0} (put : ℤ → V → D → D) where
  -- The goroutine of SensorSendData, with the client that feeds it.
  pub data Feed (s : Upload V D) : Upload V D → Type 0 where
    give :
        (v : V)
        → s.input_closed ≡ false
        → length s.queue < upload_capacity
        → Feed s (record s { queue = s.queue ++ (v ∷ []); given = s.given ++ (v ∷ []) })
    close_input : s.input_closed ≡ false → Feed s (record s { input_closed = true })
    send :
        (v : V) (q : List V)
        → s.sender ≡ looping
        → s.queue ≡ v ∷ q
        → Feed s (record s { queue = q; pipe = s.pipe ++ (v ∷ []) })
    send_error :
        (v : V) (q : List V)
        → s.sender ≡ looping
        → s.queue ≡ v ∷ q
        → Feed s (record s { queue = q; sender = stopped })
    end_of_input :
        s.sender ≡ looping
        → s.queue ≡ []
        → s.input_closed ≡ true
        → Feed s (record s { sender = stopped; pipe_closed = true })

  -- The goroutine of HandleSensorDataRequest: it ends at the end of the input, or on an error.
  pub data Store (s : Upload V D) : Upload V D → Type 0 where
    receive :
        (now : ℤ) (v : V) (p : List V)
        → s.reading ≡ true
        → s.pipe ≡ v ∷ p
        → Store s (record s { pipe = p; stored = s.stored ++ ((now, v) ∷ []); db = put now v s.db })
    end_of_file :
        s.reading ≡ true
        → s.pipe ≡ []
        → s.pipe_closed ≡ true
        → Store s (record s { reading = false })
    receive_error : s.reading ≡ true → Store s (record s { reading = false })

  pub data UploadReach (s : Upload V D) : Upload V D → Type 0 where
    here : UploadReach s s
    feed : {t u : Upload V D} → UploadReach s t → Feed t u → UploadReach s u
    store : {t u : Upload V D} → UploadReach s t → Store t u → UploadReach s u
