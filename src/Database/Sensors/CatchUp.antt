-- ===== src/Database/Sensors/CatchUp.antt =====
-- hub/database/sensor_subscribe.go, `catchUpSensorSubscribe`: a new subscriber of a sensor gets the
-- values that are stored and then those that are published.
use widuino.Base.{ℕ, List, [], ◌∷◌, ◌++◌, Option, none, some, if◌then◌else◌}
use widuino.Base.Int.{ℤ, pos, next}
use widuino.Gears.{SensorDataValue}
use widuino.Database.{LevelDb, Codec}
use widuino.Database.Subscribers.{CatchUp, begun, caught}
use widuino.Database.Messages.CatchUp.{Round}
use widuino.Database.Sensors.{SensorSubs, value_at, sensor_iterate, add_sensor_subscriber}
use mathlib.Core.Option

module _ {F L : Type 0} (ldb : LevelDb L) (codec : Codec (SensorDataValue F)) (name : List ℕ)
    (zero_value : SensorDataValue F) where
  unfoldable pub sensor_do_catch_up : Round L → ℤ → CatchUp (SensorDataValue F)
  sensor_do_catch_up r start =
      (sensor_iterate ldb codec {H = CatchUp (SensorDataValue F)} {E = Unit {0}} name start (pos 0)
        zero_value (λ m h. (caught value_at r.fits m h, none)) r.store begun).0

  abbrev pub values_sent :
      List (SensorDataValue F) → List (SensorDataValue F) × ℤ → List (SensorDataValue F) × ℤ
  values_sent sent (later, start) = (sent ++ later, start)

  -- The loop around the rounds: all that is sent, and the time that the subscription starts at.
  unfoldable pub sensor_catch_up : List (Round L) → ℤ → Option (List (SensorDataValue F) × ℤ)
  sensor_catch_up [] last_at = none
  sensor_catch_up (r ∷ rs) last_at =
      let h = sensor_do_catch_up r last_at in
      let later = Option.map (values_sent h.sent) (sensor_catch_up rs (next h.last_at)) in
      if h.locked then some (h.sent, next h.last_at) else later

  -- The whole: after a round that kept the lock the channel is added, with the subscribers as they
  -- are in that round; an inner `none` is the end of the program.
  abbrev pub added :
      ℕ → SensorSubs → List (SensorDataValue F) × ℤ → List (SensorDataValue F) × Option SensorSubs
  added c st (sent, start) = (sent, add_sensor_subscriber name start c st)

  unfoldable pub catch_up_sensor_subscribe :
      List (Round L) → ℤ → ℕ → SensorSubs → Option (List (SensorDataValue F) × Option SensorSubs)
  catch_up_sensor_subscribe rs start c st = Option.map (added c st) (sensor_catch_up rs start)
