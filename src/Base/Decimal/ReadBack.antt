-- ===== src/Base/Decimal/ReadBack.antt =====
-- Numbers below 2^63 that `%d` writes are read back by Atoi.
use Prim.Native.Nat.{ℕ, zero, suc, ◌+◌, ◌/◌, ◌%◌, ◌^◌, ◌≤◌, ◌<◌}
use mathlib.Core.Path.{◌≡◌, refl, sym, ap, ◌∙◌}
use mathlib.Core.Bool.{false}
use mathlib.Core.Option.{some}
use mathlib.Core.List.{List, [], ◌∷◌, append-nil}
use native.Mathlib.Omega.{arith}
use widuino.Base.Lists.{length, All, All-append}
use widuino.Base.Decimal.{
  low_digits, digit_count, digits_value, atoi, int64_digits, decimal, number,
}
use widuino.Base.Decimal.Laws.{length-low_digits, digits_value-low_digits, lt-digit_count}

abbrev pub IsDigit : ℕ → Type 0
IsDigit c = (48 ≤ c) × (c ≤ 57)

pub low_digits-IsDigit : (k n : ℕ) → All IsDigit (low_digits k n)
unfolding low_digits
low_digits-IsDigit zero n = tt
low_digits-IsDigit (suc k) n =
    All-append IsDigit (low_digits k (n / 10)) ((b'0' + n % 10) ∷ [])
      (low_digits-IsDigit k (n / 10)) ((omega arith, omega arith), tt)

pub atoi-digits :
    (s : List ℕ) (n : ℕ)
    → All IsDigit s
    → 0 < length s
    → digits_value 0 s ≡ some n
    → n < 2 ^ 63
    → atoi s ≡ some (false, n)
unfolding atoi
atoi-digits [] n h l e b = absurd (omega arith)
atoi-digits (c ∷ s) n h l e b = ground (arith, h.0.0, h.0.1)

digit_count_pos : (fuel n : ℕ) → 0 < digit_count fuel n
unfolding digit_count
digit_count_pos zero n = omega arith
digit_count_pos (suc fuel) n = ground arith

pub decimal-IsDigit : (n : ℕ) → All IsDigit (decimal n)
unfolding decimal
decimal-IsDigit n = low_digits-IsDigit (digit_count int64_digits n) n

pub length-decimal : (n : ℕ) → 0 < length (decimal n)
unfolding decimal
length-decimal n =
    omega (arith, length-low_digits (digit_count int64_digits n) n, digit_count_pos int64_digits n)

pub atoi-decimal : (n : ℕ) → n < 2 ^ 63 → atoi (decimal n) ≡ some (false, n)
unfolding decimal
atoi-decimal n h =
    let w = digit_count int64_digits n in
    let big : n < 10 ^ 20 = omega arith in
    let e =
      ap (digits_value 0) (sym (append-nil (low_digits w n)))
      ∙ digits_value-low_digits w n [] (lt-digit_count int64_digits n big) in
    let wide : 0 < length (low_digits w n) =
      omega (arith, length-low_digits w n, digit_count_pos int64_digits n) in
    atoi-digits (low_digits w n) n (low_digits-IsDigit w n) wide e h

number-cons : (s : List ℕ) → 0 < length s → number s ≡ digits_value 0 s
number-cons [] h = absurd (omega arith)
number-cons (c ∷ s) h = refl

pub number-decimal : (n : ℕ) → n < 10 ^ 20 → number (decimal n) ≡ some n
unfolding decimal
number-decimal n h =
    let w = digit_count int64_digits n in
    let wide : 0 < length (low_digits w n) =
      omega (arith, length-low_digits w n, digit_count_pos int64_digits n) in
    number-cons (low_digits w n) wide
    ∙ ap (digits_value 0) (sym (append-nil (low_digits w n)))
    ∙ digits_value-low_digits w n [] (lt-digit_count int64_digits n h)
