-- ===== src/Readings/Temps.antt =====
-- OLD/flow/gadgets/decoders/owTemp.go: the readings of a packet of temperatures as a list.
use widuino.Base.{ℕ, suc, ◌+◌, ◌^◌, ◌<◌, List, [], ◌∷◌, ◌++◌, false}
use widuino.Base.{
  ◌≡◌, refl, sym, ap, ◌∙◌, inl, inr, arith, Bool-cases, All, All-append, append_assoc, append-nil,
}
use widuino.Base.{ltb, if◌then◌else◌, length, drop, some}
use widuino.Base.Int.{pos}
use widuino.Base.Dict.{Dict, insert, bytes_key, bytes_same, bytes_same_iff}
use widuino.Base.Decimal.{number, decimal}
use widuino.Base.Decimal.ReadBack.{number-decimal}
use widuino.Readings.{FlowLib, temp_name, temps_from}

insert-fresh {ℓ} :
    {V : Type ℓ} (k : List ℕ) (v : V) (d : Dict (List ℕ) V)
    → All (λ (x : List ℕ × V). bytes_same x.0 k ≡ false) d
    → insert k v d ≡ d ++ ((k, v) ∷ [])
unfolding insert
insert-fresh k v [] h = refl
insert-fresh k v ((j, w) ∷ d) h = rw h.0 (ap (◌∷◌ (j, w)) (insert-fresh k v d h.1))

temp_name-differs : (j i : ℕ) → j < i → i < 10 ^ 20 → bytes_same (temp_name j) (temp_name i) ≡ false
temp_name-differs j i less small = elim (Bool-cases (bytes_same (temp_name j) (temp_name i))) [
  | inr other ↦ other
  | inl equal ↦
      let e : decimal j ≡ decimal i =
        ap (drop 4) ((bytes_same_iff (temp_name j) (temp_name i)).0 equal) in
      let n : some j ≡ some i =
        sym (number-decimal j (omega arith)) ∙ ap number e ∙ number-decimal i small in
      let same : j ≡ i = cc n in absurd (omega (arith, same))
]

module _ {F T : Type 0} (lib : FlowLib F T) where
  -- A reading for each byte that is not zero, under its place.
  abbrev pub warm : ℕ → List ℕ → List (List ℕ × F)
  warm i [] = []
  warm i (t ∷ ts) =
      let rest = warm (suc i) ts in
      if ltb 0 t then (temp_name i, lib.float64 (pos t)) ∷ rest else rest

  -- Only names of places before `i`.
  abbrev Before : ℕ → Dict (List ℕ) F → Type 0
  Before i d = All (λ (x : List ℕ × F). (j : ℕ) × (j < i) × (x.0 ≡ temp_name j)) d

  Before-suc : (i : ℕ) (d : Dict (List ℕ) F) → Before i d → Before (suc i) d
  Before-suc i [] h = tt
  Before-suc i (x ∷ d) ((j, less, e), h) = ((j, omega (arith, less), e), Before-suc i d h)

  Before-fresh :
      (i : ℕ) (d : Dict (List ℕ) F)
      → i < 10 ^ 20
      → Before i d
      → All (λ (x : List ℕ × F). bytes_same x.0 (temp_name i) ≡ false) d
  Before-fresh i [] small h = tt
  Before-fresh i (x ∷ d) small ((j, less, e), h) =
      (rw e (temp_name-differs j i less small), Before-fresh i d small h)

  temps_from-after :
      (i : ℕ) (ts : List ℕ) (d : Dict (List ℕ) F)
      → i + length ts < 10 ^ 20
      → Before i d
      → temps_from lib i ts d ≡ d ++ warm i ts
  unfolding temps_from
  temps_from-after i [] d small h = sym (append-nil d)
  temps_from-after i (t ∷ ts) d small h = elim (Bool-cases (ltb 0 t)) [
    | inr cold ↦ rw cold (temps_from-after (suc i) ts d (omega (arith, small)) (Before-suc i d h))
    | inl hot ↦
        let added =
          insert-fresh (temp_name i) (lib.float64 (pos t)) d
            (Before-fresh i d (omega (arith, small)) h) in
        rw (hot, added)
          (temps_from-after (suc i) ts (d ++ ((temp_name i, lib.float64 (pos t)) ∷ []))
              (omega (arith, small))
              (All-append (λ (x : List ℕ × F). (j : ℕ) × (j < suc i) × (x.0 ≡ temp_name j)) d _
                (Before-suc i d h) ((i, omega arith, refl), tt))
            ∙ append_assoc d ((temp_name i, lib.float64 (pos t)) ∷ []) (warm (suc i) ts))
  ]

  pub temps_from-warm : (ts : List ℕ) → length ts < 10 ^ 20 → temps_from lib 0 ts [] ≡ warm 0 ts
  temps_from-warm ts small = temps_from-after 0 ts [] (omega (arith, small)) tt
