-- ===== src/HubMain/Tests.antt =====
-- The theorem on the processors at a small run.
use widuino.Base.{ℕ, ◌<◌, List, [], ◌∷◌, ◌++◌, none, some, Bool, true, All, ◌≡◌, refl, arith}
use widuino.HubMain.{
  Process, Processor, log_processor, db_processor, channel_capacity, Hub, started, first, returned,
  arrive, receive, forward, forwarded, told_takes, Reach, here, then,
}
use widuino.HubMain.FanOut.{IsInStep, hub-IsInStep}
use widuino.HubMain.Finish.{hub_can_finish}

-- Two messages come in; the first is forwarded, and LogProcessor has handled it.
abbrev one_forwarded : Hub ℕ
one_forwarded = record {
  received = 7 ∷ 8 ∷ [];
  recv = 8 ∷ [];
  current = none;
  told = [];
  untold =
      record { process = log_processor; queue = []; busy = none; handled = 7 ∷ [] }
      ∷ record { process = db_processor; queue = 7 ∷ []; busy = none; handled = [] }
      ∷ [];
}

abbrev waiting : Processor ℕ
waiting = record { process = db_processor; queue = []; busy = none; handled = [] }

abbrev idle : Processor ℕ
idle = record { process = log_processor; queue = []; busy = none; handled = [] }

abbrev full : Processor ℕ
full = record { process = log_processor; queue = 7 ∷ []; busy = none; handled = [] }

abbrev at_work : Processor ℕ
at_work = record { process = log_processor; queue = []; busy = some 7; handled = [] }

abbrev returns_always : Process → List ℕ → ℕ → Bool
returns_always f done m = true

abbrev run_of_one : Reach returns_always started one_forwarded
run_of_one =
    let room : 0 < channel_capacity = omega arith in
    let more : 1 < channel_capacity = omega arith in
    let r1 = then (then here (arrive 7 room)) (arrive 8 more) in
    let r2 =
      then (then r1 (receive 7 (8 ∷ []) refl refl))
        (forward 7 idle (waiting ∷ []) refl refl room) in
    let r3 =
      then (then r2 (told_takes (first full [] 7 [] refl refl)))
        (told_takes (returned at_work [] 7 refl refl)) in
    let r4 = then r3 (forward 7 waiting [] refl refl room) in then r4 (forwarded 7 refl refl)

hub-IsInStep_example : IsInStep one_forwarded
hub-IsInStep_example = hub-IsInStep returns_always one_forwarded run_of_one

hub_can_finish_example :
    (t : Hub ℕ) × Reach returns_always one_forwarded t
    × (t.received ≡ 7 ∷ 8 ∷ [])
    × All (λ (p : Processor ℕ). p.handled ≡ 7 ∷ 8 ∷ []) (t.told ++ t.untold)
hub_can_finish_example = hub_can_finish returns_always (λ f done m. refl) one_forwarded run_of_one
