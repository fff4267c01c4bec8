-- ===== src/Stats/Laws.antt =====
-- OLD/flow/gadgets/stats/stats.go: what is flushed for a prefix, among values of others.
use widuino.Base.{ℕ, ◌/◌, ◌<◌, List, [], ◌∷◌, ◌++◌, some, true, false, if◌then◌else◌}
use widuino.Base.{
  ◌≡◌, ◌≢◌, refl, sym, ap, ap₂, ◌∙◌, inl, inr, All, Bool-cases, Option-cases, append_assoc,
  append-nil,
}
use widuino.Base.Int.{ℤ, pos}
use widuino.Base.Dict.{
  lookup, bytes_key, bytes_same, bytes_same_iff, lookup-insert_self, lookup-insert_ne,
}
use widuino.Interpol8.Point.{Floats}
use widuino.Stats.{
  Accumulator, Aggregator, same_slot, begun_at, accumulated, flush, process, and_then, process_all,
  flush_all,
}
use widuino.Stats.Runs.{runs, summaries, resume, resume-runs}
use widuino.Stats.Tags.{prefix_of, Sample, IsSample, tags, process_tag-sample}

-- The slots and values of one sensor.
abbrev pub values_of : {F : Type 0} → List ℕ → ℕ → List (Sample F) → List (ℤ × F)
values_of p step_ms [] = []
values_of p step_ms (x ∷ xs) =
    let rest = values_of p step_ms xs in
    if bytes_same (prefix_of x.name) p then (pos (x.ms / step_ms), x.val) ∷ rest else rest

-- The accumulators of one prefix.
abbrev pub flushed_for :
    {F : Type 0} → List ℕ → List (List ℕ × Accumulator F) → List (Accumulator F)
flushed_for p [] = []
flushed_for p ((k, a) ∷ out) =
    let rest = flushed_for p out in if bytes_same k p then a ∷ rest else rest

flushed_for-append :
    {F : Type 0} (p : List ℕ) (xs ys : List (List ℕ × Accumulator F))
    → flushed_for p (xs ++ ys) ≡ flushed_for p xs ++ flushed_for p ys
flushed_for-append p [] ys = refl
flushed_for-append p ((k, a) ∷ xs) ys = elim (Bool-cases (bytes_same k p)) [
  | inl own ↦ rw own (ap (λ l. a ∷ l) (flushed_for-append p xs ys))
  | inr other ↦ rw other (flushed_for-append p xs ys)
]

module _ {F : Type 0} (fl : Floats F) (one : F) where
  -- What has been flushed for a prefix and what is pending.
  abbrev so_far : List ℕ → Aggregator F → List (ℤ × F) → List (Accumulator F)
  so_far p g xs = flushed_for p g.flushed ++ resume fl one (lookup p g.stats) xs

  process-own :
      (p : List ℕ) (s : ℤ) (v : F) (g : Aggregator F) (xs : List (ℤ × F))
      → so_far p (process fl one p s v g) xs ≡ so_far p g ((s, v) ∷ xs)
  unfolding process flush
  process-own p s v g xs = elim (Option-cases (lookup p g.stats)) [
    | inl fresh ↦ rw (fresh, lookup-insert_self p) refl
    | inr (a, found) ↦ elim (Bool-cases (same_slot s a.slot)) [
      | inl same ↦ rw (found, same, lookup-insert_self p) refl
      | inr other ↦
          let own : bytes_same p p ≡ true = (bytes_same_iff p p).1 refl in
          let later = resume fl one (some (accumulated fl one (begun_at fl one s v) v)) xs in
          let one_more : flushed_for p ((p, a) ∷ []) ≡ a ∷ [] = rw own refl in
          rw (found, other, found, lookup-insert_self p)
            (ap (λ l. l ++ later)
                (flushed_for-append p g.flushed ((p, a) ∷ [])
                  ∙ ap (λ l. flushed_for p g.flushed ++ l) one_more)
              ∙ append_assoc (flushed_for p g.flushed) (a ∷ []) later)
    ]
  ]

  flush-other :
      (p k : List ℕ) (g : Aggregator F)
      → bytes_same k p ≡ false
      → (flushed_for p (flush fl one k g).flushed ≡ flushed_for p g.flushed)
        × ((flush fl one k g).stats ≡ g.stats)
  unfolding flush
  flush-other p k g other = elim (Option-cases (lookup k g.stats)) [
    | inl absent ↦ (rw absent refl, rw absent refl)
    | inr (a, found) ↦
        let none_more : flushed_for p ((k, a) ∷ []) ≡ [] = rw other refl in
        (
          rw found (
              flushed_for-append p g.flushed ((k, a) ∷ [])
              ∙ ap (λ l. flushed_for p g.flushed ++ l) none_more
              ∙ append-nil (flushed_for p g.flushed)),
          rw found refl,
        )
  ]

  process-other :
      (p k : List ℕ) (s : ℤ) (v : F) (g : Aggregator F) (xs : List (ℤ × F))
      → bytes_same k p ≡ false
      → so_far p (process fl one k s v g) xs ≡ so_far p g xs
  unfolding process
  process-other p k s v g xs other =
      let apart : k ≢ p = λ e. cc (other, (bytes_same_iff k p).1 e) in
      elim (Option-cases (lookup k g.stats)) [
        | inl fresh ↦
            rw
              (
                fresh,
                lookup-insert_ne k p (accumulated fl one (begun_at fl one s v) v) g.stats apart,
              )
              refl
        | inr (a, found) ↦ elim (Bool-cases (same_slot s a.slot)) [
          | inl same ↦
              rw (found, same, lookup-insert_ne k p (accumulated fl one a v) g.stats apart) refl
          | inr later ↦
              let (gone, kept) = flush-other p k g other in
              rw
                (
                  found,
                  later,
                  lookup-insert_ne k p (accumulated fl one (begun_at fl one s v) v)
                      (flush fl one k g).stats apart,
                  gone,
                  kept,
                )
                refl
        ]
      ]

  process-sample :
      (p : List ℕ) (step_ms : ℕ) (x : Sample F) (xs : List (Sample F)) (g : Aggregator F)
      → so_far p
          (process fl one (prefix_of x.name) (pos (x.ms / step_ms)) x.val g)
          (values_of p step_ms xs)
        ≡ so_far p g (values_of p step_ms (x ∷ xs))
  process-sample p step_ms x xs g = elim (Bool-cases (bytes_same (prefix_of x.name) p)) [
    | inl own ↦
        let same : prefix_of x.name ≡ p = (bytes_same_iff (prefix_of x.name) p).0 own in
        rw own (
          ap
            (λ k.
              so_far p (process fl one k (pos (x.ms / step_ms)) x.val g) (values_of p step_ms xs))
            same
          ∙ process-own p (pos (x.ms / step_ms)) x.val g (values_of p step_ms xs))
    | inr other ↦ rw other (
        process-other p (prefix_of x.name) (pos (x.ms / step_ms)) x.val g (values_of p step_ms xs)
          other)
  ]

  process_all-samples :
      (step_ms : ℕ) (xs : List (Sample F)) (g : Aggregator F)
      → 0 < step_ms
      → All IsSample xs
      → (g' : Aggregator F) × (process_all fl one step_ms (tags xs) g ≡ some g')
        × ((p : List ℕ) → so_far p g' [] ≡ so_far p g (values_of p step_ms xs))
  unfolding process_all
  process_all-samples step_ms [] g hs h = (g, refl, λ p. refl)
  process_all-samples step_ms (x ∷ xs) g hs h =
      let mid = process fl one (prefix_of x.name) (pos (x.ms / step_ms)) x.val g in
      let (g', e, all) = process_all-samples step_ms xs mid hs h.1 in
      (
        g',
        ap (and_then fl one (process_all fl one step_ms (tags xs)))
              (process_tag-sample fl one step_ms x g hs h.0)
            ∙ e,
        λ p. all p ∙ process-sample p step_ms x xs g,
      )

  abbrev OthersOnly : List ℕ → List (List ℕ) → Type 0
  OthersOnly p names = All (λ k. k ≢ p) names

  same-false : (k p : List ℕ) → k ≢ p → bytes_same k p ≡ false
  same-false k p h = elim (Bool-cases (bytes_same k p)) [
    | inl same ↦ absurd (h ((bytes_same_iff k p).0 same))
    | inr other ↦ other
  ]

  flush_all-elsewhere :
      (p : List ℕ) (names : List (List ℕ)) (g : Aggregator F)
      → OthersOnly p names
      → flushed_for p (flush_all fl one names g).flushed ≡ flushed_for p g.flushed
  unfolding flush_all
  flush_all-elsewhere p [] g h = refl
  flush_all-elsewhere p (k ∷ names) g h =
      flush_all-elsewhere p names (flush fl one k g) h.1
      ∙ (flush-other p k g (same-false k p h.0)).0

  flush-own :
      (p : List ℕ) (g : Aggregator F) → flushed_for p (flush fl one p g).flushed ≡ so_far p g []
  unfolding flush
  flush-own p g = elim (Option-cases (lookup p g.stats)) [
    | inl absent ↦ rw absent (sym (append-nil (flushed_for p g.flushed)))
    | inr (a, found) ↦
        let own : bytes_same p p ≡ true = (bytes_same_iff p p).1 refl in
        let one_more : flushed_for p ((p, a) ∷ []) ≡ a ∷ [] = rw own refl in
        rw found (
          flushed_for-append p g.flushed ((p, a) ∷ [])
          ∙ ap (λ l. flushed_for p g.flushed ++ l) one_more)
  ]

  flush_all-own :
      (p : List ℕ) (before after : List (List ℕ)) (g : Aggregator F)
      → OthersOnly p before
      → OthersOnly p after
      → flushed_for p (flush_all fl one (before ++ (p ∷ after)) g).flushed ≡ so_far p g []
  unfolding flush_all
  flush_all-own p [] after g hb ha =
      flush_all-elsewhere p after (flush fl one p g) ha ∙ flush-own p g
  flush_all-own p (k ∷ before) after g hb ha =
      let (gone, kept) = flush-other p k g (same-false k p hb.0) in
      flush_all-own p before after (flush fl one k g) hb.1 ha
      ∙ ap₂ (λ l m. l ++ resume fl one (lookup p m) []) gone kept

  -- With a step of 1 ms or more, values with a name and a time below 2^63 are all taken in, in
  -- whatever order those of several sensors come. After the last loop, over prefixes in any order in
  -- which a sensor's stands once, one accumulator has been flushed for each run of the sensor's
  -- values in one slot of time, in order, and it is the one gathered from the values of that run.
  pub flush_all-runs :
      (step_ms : ℕ) (xs : List (Sample F)) (p : List ℕ) (before after : List (List ℕ))
      → 0 < step_ms
      → All IsSample xs
      → OthersOnly p before
      → OthersOnly p after
      → (g : Aggregator F) × (process_all fl one step_ms
            (tags xs)
            (record { stats = []; flushed = [] })
          ≡ some g)
        × (flushed_for p (flush_all fl one (before ++ (p ∷ after)) g).flushed
            ≡ summaries fl one (runs (values_of p step_ms xs)))
  unfolding lookup
  flush_all-runs step_ms xs p before after hs h hb ha =
      let (g, e, all) = process_all-samples step_ms xs (record { stats = []; flushed = [] }) hs h in
      (
        g,
        e,
        flush_all-own p before after g hb ha ∙ all p ∙ resume-runs fl one (values_of p step_ms xs),
      )
