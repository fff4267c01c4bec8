-- ===== src/Database/Sensors/HandOver.antt =====
-- hub/database/sensor_subscribe.go, `catchUpSensorSubscribe`: catching up ends, and hands over to the
-- subscription.
use widuino.Base.{ℕ, zero, suc, ◌≤◌, List, [], ◌∷◌, ◌++◌, Option, none, some, Bool, true}
use widuino.Base.{◌≡◌}
use widuino.Base.Int.{ℤ, pos, next}
use widuino.Base.Dict.{bytes_key}
use widuino.Gears.{SensorDataValue}
use widuino.Database.{LevelDb, Codec}
use widuino.Database.Subscribers.{CatchUp}
use widuino.Database.Messages.CatchUp.{Round}
use widuino.Database.Sensors.CatchUp.{sensor_do_catch_up, sensor_catch_up}

-- The time of the last value, or 0.
abbrev pub last_time : {F : Type 0} → List (SensorDataValue F) → ℤ
last_time [] = pos 0
last_time (m ∷ []) = m.at
last_time (m ∷ n ∷ ms) = last_time (n ∷ ms)

module _ {F : Type 0} where
  -- What a round keeps true of what it has sent, with a channel that has room for everything or not.
  abbrev IsRound : Bool → CatchUp (SensorDataValue F) → Type 0
  IsRound room h = (h.last_at ≡ last_time h.sent) × (room ≡ true → h.locked ≡ true)

  module _ {L : Type 0} (ldb : LevelDb L) (codec : Codec (SensorDataValue F)) (name : List ℕ)
      (zero_value : SensorDataValue F) where
    -- What the round of a number finds, if every round before it has lost the lock.
    abbrev pub nth_round : List (Round L) → ℤ → ℕ → Option (CatchUp (SensorDataValue F))
    nth_round [] last_at k = none
    nth_round (r ∷ rs) last_at zero = some (sensor_do_catch_up ldb codec name zero_value r last_at)
    nth_round (r ∷ rs) last_at (suc k) =
        nth_round rs (next (sensor_do_catch_up ldb codec name zero_value r last_at).last_at) k

    -- How catching up ends: in which round, up to `n`, what that round found, what was sent in the
    -- rounds before, and the time at which the subscription starts.
    pub record Ends (rs : List (Round L)) (start : ℤ) (n : ℕ) : Type 0 where
      pub last_round : ℕ
      pub in_time : last_round ≤ n
      pub found : CatchUp (SensorDataValue F)
      pub by_last_round : nth_round rs start last_round ≡ some found
      pub kept_lock : found.locked ≡ true
      pub before : List (SensorDataValue F)
      pub ended :
          sensor_catch_up ldb codec name zero_value rs start
          ≡ some (before ++ found.sent, next (last_time found.sent))
