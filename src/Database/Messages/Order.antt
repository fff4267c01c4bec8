-- ===== src/Database/Messages/Order.antt =====
-- Logs in the order of their times: what a range holds, and what is left for the next range.
use widuino.Base.{ℕ, suc, ◌≤◌, ◌<◌, List, [], ◌∷◌, ◌++◌, false}
use widuino.Base.{◌≡◌, ◌≢◌, refl, sym, ap, ◌∙◌, inl, inr, arith, All, Bool-cases, leb}
use widuino.Gears.{RfMessage}
use widuino.Database.Messages.Log.{time, log_range}
use widuino.Database.Messages.CatchUp.{last_of}

-- Each message is later than all those before it.
abbrev pub IsOrdered : List RfMessage → Type 0
IsOrdered [] = Unit
IsOrdered (m ∷ ms) = All (λ n. time m < time n) ms × IsOrdered ms

-- Where all messages are in a range without end, the range is the log.
log_range-whole : (s : ℕ) (ms : List RfMessage) → All (λ m. s ≤ time m) ms → log_range s 0 ms ≡ ms
unfolding log_range
log_range-whole s [] h = refl
log_range-whole s (m ∷ ms) h = ground (arith, h.0, log_range-whole s ms h.1)

weaken :
    (s t : ℕ) (ms : List RfMessage) → s ≤ t → All (λ m. t < time m) ms → All (λ m. s ≤ time m) ms
weaken s t [] h v = tt
weaken s t (m ∷ ms) h v = (omega (arith, v.0), weaken s t ms h v.1)

pub All-left {κ} : (P : RfMessage → Type κ) (xs ys : List RfMessage) → All P (xs ++ ys) → All P xs
All-left P [] ys v = tt
All-left P (x ∷ xs) ys v = (v.0, All-left P xs ys v.1)

pub IsOrdered-left : (xs ys : List RfMessage) → IsOrdered (xs ++ ys) → IsOrdered xs
IsOrdered-left [] ys v = tt
IsOrdered-left (x ∷ xs) ys v = (All-left _ xs ys v.0, IsOrdered-left xs ys v.1)

last_of-ge :
    (t : ℕ) (ms : List RfMessage) → All (λ m. t < time m) ms → IsOrdered ms → t ≤ last_of t ms
last_of-ge t [] h v = omega arith
last_of-ge t (m ∷ ms) h v = omega (arith, h.0, last_of-ge (time m) ms v.0 v.1)

-- Behind the last message of a log's first part comes its second part.
log_range-behind :
    (x : RfMessage) (xs ys : List RfMessage)
    → IsOrdered (x ∷ (xs ++ ys))
    → log_range (suc (last_of (time x) xs)) 0 (x ∷ (xs ++ ys)) ≡ ys
unfolding log_range
log_range-behind x [] ys v = ground (arith, log_range-whole (suc (time x)) ys (later ys v.0))
  where
    later :
        (ms : List RfMessage) → All (λ m. time x < time m) ms → All (λ m. suc (time x) ≤ time m) ms
    later ms h = h
log_range-behind x (y ∷ xs) ys v =
    let up = last_of-ge (time y) xs (All-left _ xs ys v.1.0) (IsOrdered-left xs ys v.1.1) in
    ground (arith, up, v.0.0, log_range-behind y xs ys v.1)

log_range-All : (s : ℕ) (ms : List RfMessage) → All (λ m. s ≤ time m) (log_range s 0 ms)
unfolding log_range
log_range-All s [] = tt
log_range-All s (m ∷ ms) = elim (Bool-cases (leb s (time m))) [
  | inl here ↦ rw here (ground (arith, here), log_range-All s ms)
  | inr before ↦ rw before (log_range-All s ms)
]

last_of-All :
    (s t : ℕ) (ms : List RfMessage) → ms ≢ [] → All (λ m. s ≤ time m) ms → s ≤ last_of t ms
last_of-All s t [] some_left v = absurd (some_left refl)
last_of-All s t (m ∷ []) some_left v = v.0
last_of-All s t (m ∷ n ∷ ms) some_left v = last_of-All s (time m) (n ∷ ms) (λ e. cc) v.1

log_range-skip :
    (s : ℕ) (m : RfMessage) (ms : List RfMessage)
    → leb s (time m) ≡ false
    → log_range s 0 (m ∷ ms) ≡ log_range s 0 ms
unfolding log_range
log_range-skip s m ms before = rw before

-- The next range after one that was not empty, on a log that has grown, has what is new.
pub log_range-next :
    (s : ℕ) (xs ys : List RfMessage)
    → IsOrdered (xs ++ ys)
    → log_range s 0 xs ≢ []
    → log_range s 0 (xs ++ ys)
      ≡ log_range s 0 xs ++ log_range (suc (last_of 0 (log_range s 0 xs))) 0 (xs ++ ys)
log_range-next s [] ys v some_left = absurd (some_left (unfold log_range in refl))
log_range-next s (x ∷ xs) ys v some_left = elim (Bool-cases (leb s (time x))) [
  | inl here ↦
      let le : s ≤ time x = ground (arith, here) in
      let part : log_range s 0 (x ∷ xs) ≡ x ∷ xs =
        log_range-whole s (x ∷ xs) (le, weaken s (time x) xs le (All-left _ xs ys v.0)) in
      let whole : log_range s 0 (x ∷ (xs ++ ys)) ≡ x ∷ (xs ++ ys) =
        log_range-whole s (x ∷ (xs ++ ys)) (le, weaken s (time x) (xs ++ ys) le v.0) in
      rw (part, whole) (ap (λ r. (x ∷ xs) ++ r) (sym (log_range-behind x xs ys v)))
  | inr before ↦
      let skip = log_range-skip s x xs before in
      let left = rw skip at some_left in
      let far = last_of-All s 0 (log_range s 0 xs) left (log_range-All s xs) in
      let early : leb (suc (last_of 0 (log_range s 0 xs))) (time x) ≡ false =
        ground (arith, before, far) in
      log_range-skip s x (xs ++ ys) before
      ∙ log_range-next s xs ys v.1 left
      ∙ rw (skip, log_range-skip (suc (last_of 0 (log_range s 0 xs))) x (xs ++ ys) early)
]
