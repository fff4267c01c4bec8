-- ===== src/Stats/Tests.antt =====
-- Values of two sensors, gathered by the minute.
use widuino.Base.{ℕ, List, [], ◌∷◌, Option, some, ◌≡◌, refl, arith}
use widuino.Base.Int.{pos}
use widuino.Base.Dict.{bytes_same_iff}
use widuino.Interpol8.Tests.{numbers}
use widuino.Stats.{Aggregator, process_all, flush_all}
use widuino.Stats.Runs.{runs, summaries}
use widuino.Stats.Tags.{Sample, tags}
use widuino.Stats.Laws.{values_of, flushed_for, flush_all-runs}

abbrev samples : List (Sample (Option ℕ))
samples =
    record { name = b's' ∷ b'/' ∷ b't' ∷ []; ms = 61000; val = some 20 }
    ∷ record { name = b's' ∷ b'/' ∷ b'h' ∷ []; ms = 62000; val = some 55 }
    ∷ record { name = b's' ∷ b'/' ∷ b't' ∷ []; ms = 119000; val = some 22 }
    ∷ record { name = b's' ∷ b'/' ∷ b't' ∷ []; ms = 120000; val = some 23 }
    ∷ []

flush_all-runs_example :
    (g : Aggregator (Option ℕ)) × (process_all numbers
        (some 1)
        60000
        (tags samples)
        (record { stats = []; flushed = [] })
      ≡ some g)
    × (flushed_for
          (b's' ∷ b'/' ∷ b't' ∷ b'/' ∷ [])
          (flush_all numbers
            (some 1)
            ((b's' ∷ b'/' ∷ b'h' ∷ b'/' ∷ []) ∷ (b's' ∷ b'/' ∷ b't' ∷ b'/' ∷ []) ∷ [])
            g).flushed
        ≡ summaries numbers
            (some 1)
            (runs (values_of (b's' ∷ b'/' ∷ b't' ∷ b'/' ∷ []) 60000 samples)))
flush_all-runs_example =
    flush_all-runs numbers (some 1) 60000 samples (b's' ∷ b'/' ∷ b't' ∷ b'/' ∷ [])
      ((b's' ∷ b'/' ∷ b'h' ∷ b'/' ∷ []) ∷ []) [] (omega arith)
      (
        (omega arith, omega arith),
        (
          (omega arith, omega arith),
          ((omega arith, omega arith), ((omega arith, omega arith), tt)),
        ),
      )
      (
        (λ e. absurd (
            cc (
              (bytes_same_iff (b's' ∷ b'/' ∷ b'h' ∷ b'/' ∷ []) (b's' ∷ b'/' ∷ b't' ∷ b'/' ∷ [])).1
                e))),
        tt,
      )
      tt

its_runs :
    summaries numbers (some 1) (runs (values_of (b's' ∷ b'/' ∷ b't' ∷ b'/' ∷ []) 60000 samples))
    ≡ record { num = some 2; low = some 20; high = some 22; sum = some 42; slot = pos 1 }
      ∷ record { num = some 1; low = some 23; high = some 23; sum = some 23; slot = pos 2 }
      ∷ []
its_runs = refl
