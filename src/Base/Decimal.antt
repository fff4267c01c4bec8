-- ===== src/Base/Decimal.antt =====
-- Decimal text from Go's packages fmt and strconv: `%0wd`, and ParseInt (with Atoi) in base 10 at
-- 64 bits.
pub mod Laws
pub mod ReadBack
use Prim.Native.Nat.{ℕ, zero, suc, ◌+◌, ◌-◌, ◌*◌, ◌/◌, ◌%◌, ◌^◌, max}
use mathlib.Core.Bool.{Bool, true, false, ◌&&◌}
use mathlib.Core.Option.{Option, none, some}
use mathlib.Core.List.{List, [], ◌∷◌, ◌++◌}
use widuino.Base.Cond.{ltb, leb, ◌==◌, if◌then◌else◌}
use widuino.Base.Int.{ℤ, pos, negsuc}

-- The low `k` digits, the highest first.
unfoldable pub low_digits : ℕ → ℕ → List ℕ
low_digits zero n = []
low_digits (suc k) n = low_digits k (n / 10) ++ ((b'0' + n % 10) ∷ [])

-- How many digits a number has; `fuel` is at least that less one.
unfoldable pub digit_count : ℕ → ℕ → ℕ
digit_count zero n = 1
digit_count (suc fuel) n = let rest = digit_count fuel (n / 10) in if ltb n 10 then 1 else suc rest

-- An int64 has at most 19 digits.
abbrev pub int64_digits : ℕ
int64_digits = 19

-- `%d` of a number that is not negative.
unfoldable pub decimal : ℕ → List ℕ
decimal n = low_digits (digit_count int64_digits n) n

-- `%0wd`: the sign counts for the width.
unfoldable pub pad_int : ℕ → ℤ → List ℕ
pad_int w (pos n) = low_digits (max w (digit_count int64_digits n)) n
pad_int w (negsuc n) = b'-' ∷ low_digits (max (w - 1) (digit_count int64_digits (suc n))) (suc n)

-- Decimal digits behind those that make `n`.
abbrev pub digits_value : ℕ → List ℕ → Option ℕ
digits_value n [] = some n
digits_value n (c ∷ s) =
    let more = digits_value (n * 10 + (c - b'0')) s in
    if leb b'0' c && leb c b'9' then more else none

abbrev pub number : List ℕ → Option ℕ
number [] = none
number (c ∷ s) = digits_value 0 (c ∷ s)

abbrev pub at_most : Bool → ℕ → Option ℕ → Option (Bool × ℕ)
at_most negative most none = none
at_most negative most (some n) = if leb n most then some (negative, n) else none

-- An int64 in range: its sign and its size.
unfoldable pub atoi : List ℕ → Option (Bool × ℕ)
atoi [] = none
atoi (c ∷ s) =
    if c == b'-'
    then at_most true (2 ^ 63) (number s)
    else if c == b'+'
    then at_most false (2 ^ 63 - 1) (number s)
    else at_most false (2 ^ 63 - 1) (number (c ∷ s))

-- The integer of a sign and a size.
abbrev pub signed : Bool × ℕ → ℤ
signed (false, n) = pos n
signed (true, zero) = pos 0
signed (true, suc n) = negsuc n
