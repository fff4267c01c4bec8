-- ===== src/Stats.antt =====
-- OLD/flow/gadgets/stats/stats.go: values gathered by sensor and slot of time. float64 is the interface
-- of the interpolation; the length of a slot comes as a number of milliseconds.
pub mod Runs
pub mod Tags
pub mod Laws
mod Tests
use widuino.Base.{ℕ, zero, suc, ◌-◌, ◌/◌, List, [], ◌∷◌, ◌++◌, Option, none, some}
use widuino.Base.{Bool, true, false, not, ◌==◌, ltb, if◌then◌else◌, length}
use widuino.Base.Int.{ℤ, pos, negsuc}
use widuino.Base.Dict.{Dict, lookup, insert, bytes_key}
use widuino.Base.Decimal.{atoi, decimal, signed}
use widuino.Interpol8.Point.{Floats}
use mathlib.Core.Option

pub record Accumulator (F : Type 0) : Type 0 where
  pub num : F
  pub low : F
  pub high : F
  pub sum : F
  pub slot : ℤ

-- The state: the accumulators by prefix, and what has been flushed, with its prefix.
pub record Aggregator (F : Type 0) : Type 0 where
  pub stats : Dict (List ℕ) (Accumulator F)
  pub flushed : List (List ℕ × Accumulator F)

-- `ms / stepMs`, rounded to 0.
abbrev pub slot_of : ℕ → ℤ → ℤ
slot_of step_ms (pos n) = pos (n / step_ms)
slot_of step_ms (negsuc n) = signed (true, suc n / step_ms)

abbrev pub same_slot : ℤ → ℤ → Bool
same_slot (pos a) (pos b) = a == b
same_slot (negsuc a) (negsuc b) = a == b
same_slot a b = false

-- `%d`, as strconv.Itoa.
abbrev pub itoa : ℤ → List ℕ
itoa (pos n) = decimal n
itoa (negsuc n) = b'-' ∷ decimal (suc n)

-- From the first slash on.
abbrev pub from_slash : List ℕ → List ℕ
from_slash [] = []
from_slash (c ∷ s) = let rest = from_slash s in if c == b'/' then c ∷ s else rest

-- "aggregate" and the prefix from its first slash on, the step, and the slot.
abbrev pub flush_key : {F : Type 0} → List ℕ → List ℕ × Accumulator F → List ℕ
flush_key step (prefix, accum) =
    b'a'
    ∷ b'g'
    ∷ b'g'
    ∷ b'r'
    ∷ b'e'
    ∷ b'g'
    ∷ b'a'
    ∷ b't'
    ∷ b'e'
    ∷ (from_slash prefix ++ (step ++ (b'/' ∷ itoa accum.slot)))

-- The tags that are sent out.
abbrev pub tags_out :
    {F : Type 0} → List ℕ → List (List ℕ × Accumulator F) → List (List ℕ × Accumulator F)
tags_out step [] = []
tags_out step (x ∷ flushed) = (flush_key step x, x.1) ∷ tags_out step flushed

-- A tag up to its last slash, with it, and what follows.
abbrev pub with_char : ℕ → List ℕ → Option (List ℕ × List ℕ) → Option (List ℕ × List ℕ)
with_char c s none = if c == b'/' then some (c ∷ [], s) else none
with_char c s (some (prefix, rest)) = some (c ∷ prefix, rest)

unfoldable pub split_last : List ℕ → Option (List ℕ × List ℕ)
split_last [] = none
split_last (c ∷ s) = with_char c s (split_last s)

module _ {F : Type 0} (fl : Floats F) (one : F) where
  abbrev pub begun_at : ℤ → F → Accumulator F
  begun_at slot val = record {
    num = fl.nought;
    low = val;
    high = val;
    sum = fl.nought;
    slot = slot;
  }

  abbrev pub accumulated : Accumulator F → F → Accumulator F
  accumulated accum val = record {
    num = fl.add accum.num one;
    low = if fl.less val accum.low then val else accum.low;
    high = if fl.less accum.high val then val else accum.high;
    sum = fl.add accum.sum val;
    slot = accum.slot;
  }

  abbrev pub flush_found : List ℕ → Option (Accumulator F) → Aggregator F → Aggregator F
  flush_found prefix none g = g
  flush_found prefix (some accum) g = record {
    stats = g.stats;
    flushed = g.flushed ++ ((prefix, accum) ∷ []);
  }

  -- Of a prefix that is in the map.
  unfoldable pub flush : List ℕ → Aggregator F → Aggregator F
  flush prefix g = flush_found prefix (lookup prefix g.stats) g

  abbrev pub put_accum : List ℕ → Accumulator F → Aggregator F → Aggregator F
  put_accum prefix accum g = record { stats = insert prefix accum g.stats; flushed = g.flushed }

  abbrev pub process_found : List ℕ → ℤ → F → Aggregator F → Option (Accumulator F) → Aggregator F
  process_found prefix slot val g none = put_accum prefix (accumulated (begun_at slot val) val) g
  process_found prefix slot val g (some accum) =
      if same_slot slot accum.slot
      then put_accum prefix (accumulated accum val) g
      else put_accum prefix (accumulated (begun_at slot val) val) (flush prefix g)

  unfoldable pub process : List ℕ → ℤ → F → Aggregator F → Aggregator F
  process prefix slot val g = process_found prefix slot val g (lookup prefix g.stats)

  abbrev pub process_at : ℕ → List ℕ → F → Aggregator F → Option (Bool × ℕ) → Option (Aggregator F)
  process_at step_ms prefix val g none = none
  process_at step_ms prefix val g (some ms) =
      if step_ms == 0 then none else some (process prefix (slot_of step_ms (signed ms)) val g)

  abbrev pub process_parts : ℕ → F → Aggregator F → Option (List ℕ × List ℕ) → Option (Aggregator F)
  process_parts step_ms val g none = some g
  process_parts step_ms val g (some (prefix, ms)) =
      let there = process_at step_ms prefix val g (atoi ms) in
      if ltb 1 (length prefix) then there else some g

  -- A round of Run: a tag with its value; `none` is a panic.
  unfoldable pub process_tag : ℕ → List ℕ → F → Aggregator F → Option (Aggregator F)
  process_tag step_ms tag val g = process_parts step_ms val g (split_last tag)

  abbrev pub and_then :
      (Aggregator F → Option (Aggregator F)) → Option (Aggregator F) → Option (Aggregator F)
  and_then more none = none
  and_then more (some g) = more g

  unfoldable pub process_all : ℕ → List (List ℕ × F) → Aggregator F → Option (Aggregator F)
  process_all step_ms [] g = some g
  process_all step_ms ((tag, val) ∷ tags) g =
      and_then (process_all step_ms tags) (process_tag step_ms tag val g)

  -- The last loop; `prefixes` are the keys of the map in the order of `range`.
  unfoldable pub flush_all : List (List ℕ) → Aggregator F → Aggregator F
  flush_all [] g = g
  flush_all (prefix ∷ prefixes) g = flush_all prefixes (flush prefix g)
