-- ===== src/Rpc/Replies.antt =====
-- hub/chansrv.go, `handleRequest`: the reply to any request.
use widuino.Base.{ℕ, ◌≤◌, List, [], Option, none, some, Bool, true, ◌≡◌, ◌≢◌, refl, arith}
use widuino.Base.Int.{ℤ}
use widuino.Gears.{SensorInfo, Request, Reply}
use widuino.Database.Failure.{DbError}
use widuino.Rpc.{
  Handled, handle_request, choose, case_of, subscribed, described, sensor_watched, sensor_fed,
}
use widuino.Rpc.{
  handle_echo_request, handle_rf_sub_request, handle_rf_send_request, handle_sensor_info_request,
}
use widuino.Rpc.{handle_sensor_sub_request, handle_sensor_data_request, handle_sensor_read_request}
use widuino.Rpc.{handle_param_put_request, handle_param_get_request}

-- Where the code tells of an error, nothing has been done.
abbrev IsHonest : Handled → Type 0
IsHonest h = (h.0.code ≤ 2) × (h.0.code ≢ 0 → h.1 ≡ [])

case_of-IsHonest {ℓ} :
    {R : Type ℓ} (o : Option R) (handle : R → Handled) (rest : Handled)
    → ((req : R) → IsHonest (handle req))
    → IsHonest rest
    → IsHonest (case_of o handle rest)
case_of-IsHonest none handle rest h v = v
case_of-IsHonest (some req) handle rest h v = h req

subscribed-IsHonest : (start : ℤ) (o : Option ℕ) → IsHonest (subscribed start o)
subscribed-IsHonest start none = (omega arith, λ e. refl)
subscribed-IsHonest start (some c) = (omega arith, λ e. absurd (e refl))

sensor_watched-IsHonest :
    (name : List ℕ) (start : ℤ) (o : Option ℕ) → IsHonest (sensor_watched name start o)
sensor_watched-IsHonest name start none = (omega arith, λ e. refl)
sensor_watched-IsHonest name start (some c) = (omega arith, λ e. absurd (e refl))

sensor_fed-IsHonest : (name : List ℕ) (o : Option ℕ) → IsHonest (sensor_fed name o)
sensor_fed-IsHonest name none = (omega arith, λ e. refl)
sensor_fed-IsHonest name (some c) = (omega arith, λ e. absurd (e refl))

described-IsHonest : (r : SensorInfo × Option DbError) → IsHonest (described r)
described-IsHonest (info, none) = (omega arith, λ e. absurd (e refl))
described-IsHonest (info, some x) = (omega arith, λ e. refl)

choose-IsHonest :
    (get_info : List ℕ → SensorInfo × Option DbError) (req : Request)
    → IsHonest (choose get_info req)
unfolding choose handle_echo_request handle_rf_sub_request handle_rf_send_request
    handle_sensor_info_request handle_sensor_sub_request handle_sensor_data_request
    handle_sensor_read_request handle_param_put_request handle_param_get_request
choose-IsHonest get_info req =
    case_of-IsHonest req.er handle_echo_request _ (λ r. (omega arith, λ e. absurd (e refl)))
      (case_of-IsHonest req.rfs handle_rf_sub_request _
        (λ r. subscribed-IsHonest r.start_at r.messages)
        (case_of-IsHonest req.rf handle_rf_send_request _ (λ r. (omega arith, λ e. absurd (e refl)))
          (case_of-IsHonest req.si (handle_sensor_info_request get_info) _
            (λ r. described-IsHonest (get_info r))
            (case_of-IsHonest req.sd handle_sensor_data_request _
              (λ r. sensor_fed-IsHonest r.name r.values)
              (case_of-IsHonest req.sr handle_sensor_read_request _ (λ r. (omega arith, λ e. refl))
                (case_of-IsHonest req.ss handle_sensor_sub_request _
                  (λ r. sensor_watched-IsHonest r.name r.start_at r.values)
                  (case_of-IsHonest req.pp handle_param_put_request _
                    (λ r. (omega arith, λ e. refl))
                    (case_of-IsHonest req.pg handle_param_get_request _
                      (λ r. (omega arith, λ e. refl)) (omega arith, λ e. refl)))))))))

-- Any request with a reply channel that can be sent on, whatever its fields, gets one reply on that
-- channel and keeps the connection open; the reply's code is one of the first three, and where it is
-- not that of success, the request has had no effect.
pub handle_request-one_reply :
    (get_info : List ℕ → SensorInfo × Option DbError) (send : ℕ → Reply → Bool) (req : Request)
    (c : ℕ)
    → req.reply ≡ some c
    → ((rep : Reply) → send c rep ≡ true)
    → let out = handle_request get_info send (some req) in
      (rep : Reply) × (out.fatal ≡ none)
      × (out.replied ≡ some (c, rep))
      × (rep.code ≤ 2)
      × (rep.code ≢ 0 → out.effects ≡ [])
unfolding handle_request choose
handle_request-one_reply get_info send req c open_reply sends =
    let h = choose-IsHonest get_info req in
    rw (open_reply, sends (choose get_info req).0) ((choose get_info req).0, refl, refl, h.0, h.1)
