-- ===== src/Base/Decimal/Laws.antt =====
-- Decimal text is read back, and at a fixed width it is ordered as the numbers are.
use Prim.Native.Nat.{ℕ, zero, suc, ◌+◌, ◌-◌, ◌*◌, ◌/◌, ◌%◌, ◌^◌, ◌≤◌, ◌<◌}
use mathlib.Core.Path.{◌≡◌, refl, sym, ap, ◌∙◌}
use mathlib.Core.Bool.{Bool, true, false, ◌&&◌, ◌||◌}
use mathlib.Core.List.{List, [], ◌∷◌, ◌++◌, append_assoc}
use native.Mathlib.Omega.{arith}
use native.Mathlib.Nat.{pow-suc}
use widuino.Base.Cond.{ltb, ◌==◌, if◌then◌else◌}
use widuino.Base.Lists.{length, length-append}
use widuino.Base.Dict.{bytes_same}
use widuino.Base.Decimal.{low_digits, digit_count, digits_value}

-- Byte order on strings.
abbrev pub bytes_less : List ℕ → List ℕ → Bool
bytes_less xs [] = false
bytes_less [] (y ∷ ys) = true
bytes_less (x ∷ xs) (y ∷ ys) = let rest = bytes_less xs ys in if x == y then rest else ltb x y

pub length-low_digits : (k n : ℕ) → length (low_digits k n) ≡ k
unfolding low_digits
length-low_digits zero n = refl
length-low_digits (suc k) n = omega (
  arith,
  length-append (low_digits k (n / 10)) ((b'0' + n % 10) ∷ []),
  length-low_digits k (n / 10),
)

less-snoc :
    (xs ys : List ℕ) (x y : ℕ)
    → length xs ≡ length ys
    → bytes_less (xs ++ (x ∷ [])) (ys ++ (y ∷ []))
      ≡ (bytes_less xs ys || bytes_same xs ys && ltb x y)
less-snoc [] [] x y e = ground arith
less-snoc [] (b ∷ ys) x y e = absurd (omega arith)
less-snoc (a ∷ xs) [] x y e = absurd (omega arith)
less-snoc (a ∷ xs) (b ∷ ys) x y e = ground (arith, less-snoc xs ys x y)

same-snoc :
    (xs ys : List ℕ) (x y : ℕ)
    → length xs ≡ length ys
    → bytes_same (xs ++ (x ∷ [])) (ys ++ (y ∷ [])) ≡ (bytes_same xs ys && x == y)
same-snoc [] [] x y e = ground arith
same-snoc [] (b ∷ ys) x y e = absurd (omega arith)
same-snoc (a ∷ xs) [] x y e = absurd (omega arith)
same-snoc (a ∷ xs) (b ∷ ys) x y e = ground (arith, same-snoc xs ys x y)

pub same-low_digits :
    (k a b : ℕ) → a < 10 ^ k → b < 10 ^ k → bytes_same (low_digits k a) (low_digits k b) ≡ a == b
unfolding low_digits
same-low_digits zero a b ha hb = ground arith
same-low_digits (suc k) a b ha hb =
    let lens : length (low_digits k (a / 10)) ≡ length (low_digits k (b / 10)) =
      length-low_digits k (a / 10) ∙ sym (length-low_digits k (b / 10)) in
    let p = pow-suc 10 k in
    same-snoc (low_digits k (a / 10)) (low_digits k (b / 10)) (b'0' + a % 10) (b'0' + b % 10) lens
    ∙ ground (arith, same-low_digits k (a / 10) (b / 10) (omega (arith, p)) (omega (arith, p)))

-- At a fixed width that suffices, the byte order is the order of the numbers.
pub less-low_digits :
    (k a b : ℕ) → a < 10 ^ k → b < 10 ^ k → bytes_less (low_digits k a) (low_digits k b) ≡ ltb a b
unfolding low_digits
less-low_digits zero a b ha hb = ground arith
less-low_digits (suc k) a b ha hb =
    let lens : length (low_digits k (a / 10)) ≡ length (low_digits k (b / 10)) =
      length-low_digits k (a / 10) ∙ sym (length-low_digits k (b / 10)) in
    let p = pow-suc 10 k in
    less-snoc (low_digits k (a / 10)) (low_digits k (b / 10)) (b'0' + a % 10) (b'0' + b % 10) lens
    ∙ ground (
      arith,
      same-low_digits k (a / 10) (b / 10) (omega (arith, p)) (omega (arith, p)),
      less-low_digits k (a / 10) (b / 10) (omega (arith, p)) (omega (arith, p)),
    )

-- The digits of a number below 10 ^ k, read on from 0, make the number.
pub digits_value-low_digits :
    (k n : ℕ) (s : List ℕ) → n < 10 ^ k → digits_value 0 (low_digits k n ++ s) ≡ digits_value n s
unfolding low_digits
digits_value-low_digits zero n s h = ap (λ m. digits_value m s) (omega arith)
digits_value-low_digits (suc k) n s h =
    let p = pow-suc 10 k in
    ap (digits_value 0) (append_assoc (low_digits k (n / 10)) ((b'0' + n % 10) ∷ []) s)
    ∙ digits_value-low_digits k (n / 10) ((b'0' + n % 10) ∷ s) (omega (arith, p))
    ∙ digit n s
  where
    digit : (n : ℕ) (s : List ℕ) → digits_value (n / 10) ((b'0' + n % 10) ∷ s) ≡ digits_value n s
    digit n s = let e : n / 10 * 10 + (b'0' + n % 10 - b'0') ≡ n = omega arith in ground (arith, e)

-- Enough fuel: a number is below 10 to its count of digits.
pub lt-digit_count : (fuel n : ℕ) → n < 10 ^ suc fuel → n < 10 ^ digit_count fuel n
unfolding digit_count
lt-digit_count zero n h = h
lt-digit_count (suc fuel) n h =
    let p = pow-suc 10 (suc fuel) in
    let q = pow-suc 10 (digit_count fuel (n / 10)) in
    ground (arith, q, lt-digit_count fuel (n / 10) (omega (arith, p)))

pub digit_count_le : (fuel k n : ℕ) → n < 10 ^ suc k → digit_count fuel n ≤ suc k
unfolding digit_count
digit_count_le zero k n h = omega arith
digit_count_le (suc fuel) zero n h = ground arith
digit_count_le (suc fuel) (suc k) n h =
    let p = pow-suc 10 (suc k) in ground (arith, digit_count_le fuel k (n / 10) (omega (arith, p)))
