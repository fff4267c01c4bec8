-- ===== src/Database/Subscribers.antt =====
-- hub/database/rf_subscribe.go, and what hub/database/sensor_subscribe.go repeats of it: arrays of
-- channels and of the times they start at. A channel is a number; what is sent on channels is a list.
-- `none` is a run-time panic, or the end of the program by glog.Fatalf.
pub mod Laws
use widuino.Base.{
  ℕ, suc, List, [], ◌∷◌, ◌++◌, Option, none, some, Bool, true, false, not, ◌||◌, ◌==◌,
  if◌then◌else◌,
}
use widuino.Base.Int.{ℤ, pos, lebℤ, next}

-- How far a round of catching up has come: the messages sent, the time of the last one, 0 at
-- first, and whether the lock is still held.
pub record CatchUp (M : Type 0) : Type 0 where
  pub count : ℕ
  pub last_at : ℤ
  pub locked : Bool
  pub sent : List M

abbrev pub begun : {M : Type 0} → CatchUp M
begun = record { count = 0; last_at = pos 0; locked = true; sent = [] }

module _ {M : Type 0} (at : M → ℤ) where
  abbrev pub and_sent : Option (List (ℕ × M)) → Bool → ℕ → M → Option (List (ℕ × M))
  and_sent none wanted c m = none
  and_sent (some out) true c m = some ((c, m) ∷ out)
  and_sent (some out) false c m = some out

  -- RFPublish: to each channel that starts no later than the message.
  unfoldable pub publish_to : M → List ℕ → List ℤ → Option (List (ℕ × M))
  publish_to m [] starts = some []
  publish_to m (c ∷ subs) [] = none
  publish_to m (c ∷ subs) (s ∷ starts) = and_sent (publish_to m subs starts) (lebℤ s (at m)) c m

  -- The callback of doCatchUp; `fits` says of each message whether the channel has room for it, and
  -- the first that has to wait releases the lock.
  unfoldable pub caught : (ℕ → Bool) → M → CatchUp M → CatchUp M
  caught fits m h = record {
    count = suc h.count;
    last_at = at m;
    locked = if fits h.count then h.locked else false;
    sent = h.sent ++ (m ∷ []);
  }

-- The arrays after the removal of a channel, and whether it was closed: the Boolean stands for the call
-- of close, and is nothing that RFUnsubscribe returns.
abbrev pub Removal : Type 0
Removal = (List ℕ × List ℤ) × Bool

abbrev pub keep : ℕ → ℤ → Option Removal → Option Removal
keep d s none = none
keep d s (some ((subs, starts), found)) = some ((d ∷ subs, s ∷ starts), found)

-- The loop of RFUnsubscribe. The index goes on after a removal, so the next channel, which has
-- moved up, is not looked at (`skip`); a channel that is found again is closed twice, a panic.
-- Arrays of different lengths end the program.
unfoldable pub remove_from : ℕ → Bool → Bool → List ℕ → List ℤ → Option Removal
remove_from c found skip [] [] = some (([], []), found)
remove_from c found skip [] (s ∷ starts) = none
remove_from c found skip (d ∷ subs) [] = none
remove_from c found skip (d ∷ subs) (s ∷ starts) =
    let kept = remove_from c found false subs starts in
    let removed = remove_from c true true subs starts in
    if skip || not (d == c) then keep d s kept else if found then none else removed

unfoldable pub rf_unsubscribe : ℕ → List ℕ → List ℤ → Option Removal
rf_unsubscribe c subs starts = remove_from c false false subs starts
