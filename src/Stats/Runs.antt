-- ===== src/Stats/Runs.antt =====
-- OLD/flow/gadgets/stats/stats.go: the values of one prefix, gathered as they come, are those of the
-- runs of values in one slot.
use widuino.Base.{List, [], ◌∷◌, Option, none, some, true, false, if◌then◌else◌}
use widuino.Base.{◌≡◌, refl, sym, ap, ap₂, ◌∙◌, inl, inr, arith, Bool-cases}
use widuino.Base.Int.{ℤ, pos, negsuc}
use widuino.Interpol8.Point.{Floats}
use widuino.Stats.{Accumulator, same_slot, begun_at, accumulated}

pub same_slot-same : (a b : ℤ) → same_slot a b ≡ true → a ≡ b
same_slot-same (pos a) (pos b) e = ap pos (ground (arith, e))
same_slot-same (negsuc a) (negsuc b) e = ap negsuc (ground (arith, e))
same_slot-same (pos a) (negsuc b) e = cc
same_slot-same (negsuc a) (pos b) e = cc

-- The runs of values in one slot.
abbrev pub joined : {F : Type 0} → ℤ → F → List (ℤ × List F) → List (ℤ × List F)
joined s v [] = (s, v ∷ []) ∷ []
joined s v ((t, vs) ∷ rs) = if same_slot t s then (s, v ∷ vs) ∷ rs else (s, v ∷ []) ∷ (t, vs) ∷ rs

abbrev pub runs : {F : Type 0} → List (ℤ × F) → List (ℤ × List F)
runs [] = []
runs ((s, v) ∷ xs) = joined s v (runs xs)

module _ {F : Type 0} (fl : Floats F) (one : F) where
  abbrev pub gathered : Accumulator F → List F → Accumulator F
  gathered a [] = a
  gathered a (v ∷ vs) = gathered (accumulated fl one a v) vs

  -- One accumulator for each run.
  abbrev pub summaries : List (ℤ × List F) → List (Accumulator F)
  summaries [] = []
  summaries ((s, []) ∷ rs) = summaries rs
  summaries ((s, v ∷ vs) ∷ rs) = gathered (begun_at fl one s v) (v ∷ vs) ∷ summaries rs

  -- The accumulators of the values to come, from one that is pending.
  abbrev pub resume : Option (Accumulator F) → List (ℤ × F) → List (Accumulator F)
  resume none [] = []
  resume (some a) [] = a ∷ []
  resume none ((s, v) ∷ xs) = resume (some (accumulated fl one (begun_at fl one s v) v)) xs
  resume (some a) ((s, v) ∷ xs) =
      let same = resume (some (accumulated fl one a v)) xs in
      let other = a ∷ resume (some (accumulated fl one (begun_at fl one s v) v)) xs in
      if same_slot s a.slot then same else other

  abbrev continued : Accumulator F → List (ℤ × List F) → List (Accumulator F)
  continued a [] = a ∷ []
  continued a ((t, vs) ∷ rs) =
      if same_slot t a.slot then gathered a vs ∷ summaries rs else a ∷ summaries ((t, vs) ∷ rs)

  summaries-joined :
      (s : ℤ) (v : F) (rs : List (ℤ × List F))
      → summaries (joined s v rs) ≡ continued (accumulated fl one (begun_at fl one s v) v) rs
  summaries-joined s v [] = refl
  summaries-joined s v ((t, vs) ∷ rs) = elim (Bool-cases (same_slot t s)) [
    | inl same ↦ rw same refl
    | inr other ↦ rw other refl
  ]

  continued-joined :
      (a : Accumulator F) (s : ℤ) (v : F) (rs : List (ℤ × List F))
      → continued a (joined s v rs) ≡ (
          if same_slot s a.slot
          then continued (accumulated fl one a v) rs
          else a ∷ continued (accumulated fl one (begun_at fl one s v) v) rs)
  continued-joined a s v [] = elim (Bool-cases (same_slot s a.slot)) [
    | inl same ↦ rw same refl
    | inr other ↦ rw other refl
  ]
  continued-joined a s v ((t, vs) ∷ rs) = elim (Bool-cases (same_slot s a.slot)) [
    | inl same ↦
        let at : s ≡ a.slot = same_slot-same s a.slot same in
        elim (Bool-cases (same_slot t s)) [
          | inl more ↦
              let more' : same_slot t a.slot ≡ true = rw (sym at) more in
              rw (more, same, more') refl
          | inr less ↦
              let less' : same_slot t a.slot ≡ false = rw (sym at) less in
              rw (less, same, less') refl
        ]
    | inr other ↦ elim (Bool-cases (same_slot t s)) [
      | inl more ↦ rw (more, other) refl
      | inr less ↦ rw (less, other) refl
    ]
  ]

  resume-continued :
      (a : Accumulator F) (xs : List (ℤ × F)) → resume (some a) xs ≡ continued a (runs xs)
  resume-continued a [] = refl
  resume-continued a ((s, v) ∷ xs) =
      let fresh = accumulated fl one (begun_at fl one s v) v in
      ap₂ (λ x y. if same_slot s a.slot then x else y)
        (resume-continued (accumulated fl one a v) xs) (ap (λ l. a ∷ l) (resume-continued fresh xs))
      ∙ sym (continued-joined a s v (runs xs))

  pub resume-runs : (xs : List (ℤ × F)) → resume none xs ≡ summaries (runs xs)
  resume-runs [] = refl
  resume-runs ((s, v) ∷ xs) =
      resume-continued (accumulated fl one (begun_at fl one s v) v) xs
      ∙ sym (summaries-joined s v (runs xs))
