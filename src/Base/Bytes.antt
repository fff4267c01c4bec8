-- ===== src/Base/Bytes.antt =====
-- The lengths of byte strings, as a set of lemmas for `omega` and `ground`.
use Prim.Native.Nat.{ℕ, ◌+◌, ◌-◌, min}
use mathlib.Core.Path.{◌≡◌}
use mathlib.Core.List.{List, ◌++◌}
use native.Mathlib.Omega.{arith}
use widuino.Base.Lists.{length, take, drop, replicate}
use widuino.Base.Lists.{length-append, length-take, length-drop, length-replicate}

pub length_joined : (xs ys : List ℕ) → length (xs ++ ys) ≡ length xs + length ys
length_joined = length-append

pub length_first : (n : ℕ) (xs : List ℕ) → length (take n xs) ≡ min n (length xs)
length_first = length-take

pub length_rest : (n : ℕ) (xs : List ℕ) → length (drop n xs) ≡ length xs - n
length_rest = length-drop

pub length_filled : (n b : ℕ) → length (replicate n b) ≡ n
length_filled = length-replicate

pub ruleset byte_lengths = (arith, length_joined, length_first, length_rest, length_filled)
