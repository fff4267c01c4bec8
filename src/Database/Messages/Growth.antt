-- ===== src/Database/Messages/Growth.antt =====
-- Logs that grow at their end: what a range of theirs has and what is behind it.
use widuino.Base.{ℕ, suc, ◌≤◌, ◌<◌, List, [], ◌∷◌, ◌++◌}
use widuino.Base.{◌≡◌, ◌≢◌, refl, sym, ap, inl, inr, arith, All, Bool-cases, append-nil, leb}
use widuino.Gears.{RfMessage}
use widuino.Database.Messages.Log.{time, log_insert, log_range}
use widuino.Database.Messages.CatchUp.{last_of}
use widuino.Database.Messages.Order.{IsOrdered, log_range-next}

pub log_range-append :
    (s : ℕ) (xs ys : List RfMessage)
    → log_range s 0 (xs ++ ys) ≡ log_range s 0 xs ++ log_range s 0 ys
unfolding log_range
log_range-append s [] ys = refl
log_range-append s (x ∷ xs) ys = ground (arith, log_range-append s xs ys)

pub log_range-one : (s : ℕ) (m : RfMessage) → s ≤ time m → log_range s 0 (m ∷ []) ≡ m ∷ []
unfolding log_range
log_range-one s m h = ground (arith, h)

pub log_insert-last :
    (m : RfMessage) (xs : List RfMessage)
    → All (λ n. time n < time m) xs
    → log_insert m xs ≡ xs ++ (m ∷ [])
unfolding log_insert
log_insert-last m [] h = refl
log_insert-last m (x ∷ xs) h = ground (arith, h.0, log_insert-last m xs h.1)

-- What stands before a message in an ordered log is earlier.
pub IsOrdered-before :
    (xs ys : List RfMessage) (m : RfMessage)
    → IsOrdered (xs ++ (m ∷ ys))
    → All (λ n. time n < time m) xs
IsOrdered-before [] ys m v = tt
IsOrdered-before (x ∷ xs) ys m v = (in_middle xs v.0, IsOrdered-before xs ys m v.1)
  where
    in_middle :
        (xs : List RfMessage) → All (λ n. time x < time n) (xs ++ (m ∷ ys)) → time x < time m
    in_middle [] h = h.0
    in_middle (y ∷ xs) h = in_middle xs h.1

All-drop_one :
    (P : RfMessage → Type 0) (xs ys : List RfMessage) (m : RfMessage)
    → All P (xs ++ (m ∷ ys))
    → All P (xs ++ ys)
All-drop_one P [] ys m v = v.1
All-drop_one P (x ∷ xs) ys m v = (v.0, All-drop_one P xs ys m v.1)

pub IsOrdered-drop_one :
    (xs ys : List RfMessage) (m : RfMessage) → IsOrdered (xs ++ (m ∷ ys)) → IsOrdered (xs ++ ys)
IsOrdered-drop_one [] ys m v = v.1
IsOrdered-drop_one (x ∷ xs) ys m v = (All-drop_one _ xs ys m v.0, IsOrdered-drop_one xs ys m v.1)

pub last_of-before :
    (t b : ℕ) (xs : List RfMessage) → t < b → All (λ n. time n < b) xs → last_of t xs < b
last_of-before t b [] h v = h
last_of-before t b (x ∷ xs) h v = last_of-before (time x) b xs v.0 v.1

pub log_range-before :
    (s b : ℕ) (xs : List RfMessage)
    → All (λ n. time n < b) xs
    → All (λ n. time n < b) (log_range s 0 xs)
unfolding log_range
log_range-before s b [] v = tt
log_range-before s b (x ∷ xs) v = elim (Bool-cases (leb s (time x))) [
  | inl here ↦ rw here (v.0, log_range-before s b xs v.1)
  | inr early ↦ rw early (log_range-before s b xs v.1)
]

append-same : (xs ys : List RfMessage) → xs ≡ xs ++ ys → ys ≡ []
append-same [] ys e = sym e
append-same (x ∷ xs) ys e = append-same xs ys (ap tail e)
  where
    tail : List RfMessage → List RfMessage
    tail [] = []
    tail (x ∷ xs) = xs

-- Behind a range that was not empty, nothing is left.
pub log_range-behind_all :
    (s : ℕ) (xs : List RfMessage)
    → IsOrdered xs
    → log_range s 0 xs ≢ []
    → log_range (suc (last_of 0 (log_range s 0 xs))) 0 xs ≡ []
log_range-behind_all s xs v some_left =
    let v' : IsOrdered (xs ++ []) = rw (append-nil xs) v in
    let e = log_range-next s xs [] v' some_left in
    append-same (log_range s 0 xs) _ (rw (append-nil xs) at e)
