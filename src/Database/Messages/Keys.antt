-- ===== src/Database/Messages/Keys.antt =====
-- hub/database/rfmessage.go, `genRFKey` and `parseRFKey`: keys are read back, and their byte order is
-- the order of the times.
use widuino.Base.{
  ℕ, zero, suc, ◌+◌, ◌-◌, ◌^◌, ◌≤◌, ◌<◌, max, List, [], ◌∷◌, ◌++◌, some, true, false,
}
use widuino.Base.{◌≡◌, refl, sym, ap, ◌∙◌, arith, ltb, ◌==◌, ◌||◌, get_or, length, append-nil}
use widuino.Base.Dict.{bytes_same}
use widuino.Base.Int.{ℤ, pos}
use widuino.Base.Decimal.{low_digits, digit_count, pad_int, digits_value, int64_digits}
use widuino.Base.Decimal.Laws.{bytes_less, length-low_digits, same-low_digits, less-low_digits}
use widuino.Base.Decimal.Laws.{digits_value-low_digits, lt-digit_count, digit_count_le}
use widuino.Base.Decimal.ReadBack.{low_digits-IsDigit, atoi-digits}
use native.Mathlib.Nat.{pow-suc}
use widuino.Database.Messages.{prefix, gen_rf_key, parse_rf_key, max_int64}

pow_le_add : (c a : ℕ) → 10 ^ a ≤ 10 ^ (c + a)
pow_le_add zero a = let e : 0 + a ≡ a = omega arith in rw e (omega arith)
pow_le_add (suc c) a =
    let e : suc c + a ≡ suc (c + a) = omega arith in
    let p = pow-suc 10 (c + a) in rw e (omega (arith, p, pow_le_add c a))

-- The width of a key's digits suffices for any time of an int64.
width_enough : (w n : ℕ) → n < 2 ^ 63 → n < 10 ^ max w (digit_count int64_digits n)
width_enough w n h =
    let d = digit_count int64_digits n in
    let e : max w d ≡ (max w d - d) + d = omega arith in
    let big : n < 10 ^ 20 = omega arith in
    rw e (omega (arith, lt-digit_count int64_digits n big, pow_le_add (max w d - d) d))

-- The key of a time from 1970 on, up to the largest int64, is read back as the time.
parse_rf_key-gen_rf_key : (n : ℕ) → n < 2 ^ 63 → parse_rf_key (gen_rf_key (pos n)) ≡ some (pos n)
unfolding parse_rf_key gen_rf_key pad_int
parse_rf_key-gen_rf_key n h =
    let w = max 13 (digit_count int64_digits n) in
    let e =
      ap (digits_value 0) (sym (append-nil (low_digits w n)))
      ∙ digits_value-low_digits w n [] (width_enough 13 n h) in
    let wide : 0 < length (low_digits w n) = omega (arith, length-low_digits w n) in
    ground (arith, wide, atoi-digits (low_digits w n) n (low_digits-IsDigit w n) wide e h)

-- Up to 13 digits, the year 2286.
key_of_time : (n : ℕ) → n < 10 ^ 13 → gen_rf_key (pos n) ≡ prefix ++ low_digits 13 n
unfolding gen_rf_key pad_int
key_of_time n h =
    let e : max 13 (digit_count int64_digits n) ≡ 13 =
      omega (arith, digit_count_le int64_digits 12 n h) in
    ap (λ w. prefix ++ low_digits w n) e

-- Below 10^13, the year 2286, the byte order of the keys is the order of the times.
pub gen_rf_key_order :
    (a b : ℕ)
    → a < 10 ^ 13
    → b < 10 ^ 13
    → bytes_less (gen_rf_key (pos a)) (gen_rf_key (pos b)) ≡ ltb a b
gen_rf_key_order a b ha hb = rw (key_of_time a ha, key_of_time b hb) (less-low_digits 13 a b ha hb)

pub gen_rf_key_same :
    (a b : ℕ)
    → a < 10 ^ 13
    → b < 10 ^ 13
    → bytes_same (gen_rf_key (pos a)) (gen_rf_key (pos b)) ≡ a == b
gen_rf_key_same a b ha hb = rw (key_of_time a ha, key_of_time b hb) (same-low_digits 13 a b ha hb)

less-longer :
    (xs ys : List ℕ) (z : ℕ) (zs : List ℕ)
    → length xs ≡ length ys
    → bytes_less xs (ys ++ (z ∷ zs)) ≡ (bytes_less xs ys || bytes_same xs ys)
less-longer [] [] z zs e = refl
less-longer [] (y ∷ ys) z zs e = absurd (omega arith)
less-longer (x ∷ xs) [] z zs e = absurd (omega arith)
less-longer (x ∷ xs) (y ∷ ys) z zs e = ground (arith, less-longer xs ys z zs)

-- The last time whose key is below that of the largest int64, in the year 2262.
abbrev pub last_time : ℕ
last_time = 9223372036854

max_key :
    gen_rf_key max_int64 ≡ prefix ++ (low_digits 13 last_time ++ (55 ∷ 55 ∷ 53 ∷ 56 ∷ 48 ∷ 55 ∷ []))
unfolding gen_rf_key pad_int low_digits digit_count
max_key = refl

pub less-max_key :
    (a : ℕ) → a ≤ last_time → bytes_less (gen_rf_key (pos a)) (gen_rf_key max_int64) ≡ true
less-max_key a h =
    let ha : a < 10 ^ 13 = omega arith in
    let hl : last_time < 10 ^ 13 = omega arith in
    rw (key_of_time a ha, max_key)
      (less-longer (low_digits 13 a) (low_digits 13 last_time) 55 (55 ∷ 53 ∷ 56 ∷ 48 ∷ 55 ∷ [])
          (length-low_digits 13 a ∙ sym (length-low_digits 13 last_time))
        ∙ ground
            (arith, less-low_digits 13 a last_time ha hl, same-low_digits 13 a last_time ha hl))

-- The keys of other data begin with a letter behind `r`.
abbrev pub IsOther : List ℕ → Type 0
IsOther k = b'r' < get_or k 0 0

pub other-above :
    (k : List ℕ) (at : ℤ)
    → IsOther k
    → (bytes_same k (gen_rf_key at) ≡ false)
      × (bytes_less (gen_rf_key at) k ≡ true)
      × (bytes_less k (gen_rf_key at) ≡ false)
unfolding gen_rf_key
other-above [] at h = absurd (omega arith)
other-above (c ∷ k) at h = (ground (arith, h), ground (arith, h), ground (arith, h))
