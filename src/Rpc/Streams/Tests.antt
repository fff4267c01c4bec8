-- ===== src/Rpc/Streams/Tests.antt =====
-- The theorems on subscriptions, uploads and connections at small runs.
use widuino.Base.{ℕ, ◌<◌, List, [], ◌∷◌, ◌++◌, Option, none, some, true, ◌≡◌, refl, arith}
use widuino.Base.Int.{ℤ, pos}
use widuino.Gears.{SensorInfo, Request}
use widuino.Database.Failure.{DbError, not_found}
use widuino.Database.Sensors.{no_info}
use widuino.Rpc.{missing_reply_channel}
use widuino.Rpc.Client.{empty_request}
use widuino.Rpc.Streams.{
  Stream, capacity, begin, lock, send, take, sent, received, handed_on, publish, copy, receive,
  Reach, here, then,
}
use widuino.Rpc.Streams.Order.{IsFaithful, stream-IsFaithful}
use widuino.Rpc.Streams.Deadlock.{IsDeadlocked, reach_deadlock}
use widuino.Rpc.Upload as Up
use widuino.Rpc.Upload.{Upload, begin_upload}
use widuino.Rpc.Upload.Stored.{IsStored, upload-IsStored}
use widuino.Rpc.Connection.{by_request, request_loop}
use widuino.Rpc.Connection.Pipelined.{requests, replies_of, effects_of, request_loop-pipelined}

-- Two messages are published; the first is delivered and the second is in the hub's channel.
abbrev two_published : Stream ℕ
two_published = record (begin {M = ℕ}) {
  published = 7 ∷ 8 ∷ [];
  queue = 8 ∷ [];
  delivered = 7 ∷ [];
}

abbrev run_of_two : Reach (begin {M = ℕ}) two_published
run_of_two =
    let room : 0 < capacity = omega arith in
    let r1 = then (then here (publish (lock 7 refl refl))) (publish (send 7 refl room)) in
    let r2 = then (then r1 (copy (take 7 [] refl refl))) (copy (sent 7 refl)) in
    let r3 = then (then r2 (receive (received 7 [] refl refl))) (publish (lock 8 refl refl)) in
    then (then r3 (publish (send 8 refl room))) (receive (handed_on 7 refl))

stream-IsFaithful_example : IsFaithful two_published
stream-IsFaithful_example = stream-IsFaithful two_published run_of_two

reach_deadlock_example :
    (s : Stream ℕ) × Reach begin s
    × IsDeadlocked 7 s
    × ((t : Stream ℕ) → Reach s t → IsDeadlocked 7 t)
reach_deadlock_example = reach_deadlock 7

-- A database that is the list of what was put into it.
abbrev put_first : ℤ → ℕ → List ℕ → List ℕ
put_first now v db = v ∷ db

-- Two values are given; the first is stored and the second is on the connection.
abbrev two_given : Upload ℕ (List ℕ)
two_given = record (begin_upload {V = ℕ} {D = List ℕ} []) {
  given = 5 ∷ 6 ∷ [];
  pipe = 6 ∷ [];
  stored = (pos 9, 5) ∷ [];
  db = 5 ∷ [];
}

abbrev upload_of_two : Up.UploadReach put_first (begin_upload []) two_given
upload_of_two =
    let room : 0 < Up.upload_capacity = omega arith in
    let r1 = Up.feed (Up.feed Up.here (Up.give 5 refl room)) (Up.send 5 [] refl refl) in
    let r2 = Up.feed (Up.store r1 (Up.receive (pos 9) 5 [] refl refl)) (Up.give 6 refl room) in
    Up.feed r2 (Up.send 6 [] refl refl)

upload-IsStored_example : IsStored put_first [] two_given
upload-IsStored_example = upload-IsStored put_first [] two_given upload_of_two

abbrev get_info : List ℕ → SensorInfo × Option DbError
get_info name = (no_info, some not_found)

-- An echo and a question, then a request without a reply channel.
abbrev asked : List (ℕ × Request)
asked =
    (1, record empty_request { er = some (b'h' ∷ []) })
    ∷ (2, record empty_request { si = some (b't' ∷ []) })
    ∷ []

request_loop-pipelined_example :
    request_loop get_info (λ c rep. true) (requests asked ++ (some empty_request ∷ none ∷ []))
    ≡ record {
      effects = effects_of get_info asked;
      replies = replies_of get_info asked;
      closing = some (by_request missing_reply_channel);
    }
request_loop-pipelined_example =
    request_loop-pipelined get_info asked empty_request (none ∷ []) refl
