-- ===== src/RfFormat/Line.antt =====
-- gears/rfpp/rf_format.go: the text of a message is printable and stays on its line.
use widuino.Base.{ℕ, ◌+◌, ◌*◌, ◌≤◌, List, [], ◌∷◌, ◌++◌, Bool, true, false}
use widuino.Base.{
  ◌≡◌, refl, inl, inr, arith, Bool-cases, All, All-append, length, get_or, drop, ◌==◌, ◌&&◌, not,
  ltb,
}
use widuino.Base.Words.{IsByte}
use widuino.Base.Decimal.{decimal}
use widuino.Base.Decimal.ReadBack.{IsDigit, decimal-IsDigit}
use widuino.Gears.{RfMessage}
use widuino.Boot.Server.{hex_string}
use widuino.LogWriter.{spaced}
use widuino.RfFormat.{
  temps_text, counts_text, bytes_text, sent_received, level_label, rssi_label, unknown_label,
  temp_label, level_text, rssi_text, rf_format,
}

-- From a blank to a tilde, in ASCII.
abbrev pub IsPrintable : ℕ → Type 0
IsPrintable c = (32 ≤ c) × (c ≤ 126)

-- Whether a text is printable, by evaluation.
abbrev printable : List ℕ → Bool
printable [] = true
printable (c ∷ s) = not (ltb c 32) && (ltb c 127 && printable s)

printable-All : (s : List ℕ) → printable s ≡ true → All IsPrintable s
printable-All [] e = tt
printable-All (c ∷ s) e =
    ((ground (arith, e), ground (arith, e)), printable-All s (ground (arith, e)))

digits-All : (s : List ℕ) → All IsDigit s → All IsPrintable s
digits-All [] h = tt
digits-All (c ∷ s) ((low, high), h) = ((omega (arith, low), omega (arith, high)), digits-All s h)

decimal-All : (n : ℕ) → All IsPrintable (decimal n)
decimal-All n = digits-All (decimal n) (decimal-IsDigit n)

joined : (xs ys : List ℕ) → All IsPrintable xs → All IsPrintable ys → All IsPrintable (xs ++ ys)
joined = All-append IsPrintable

-- A text behind a label.
labelled :
    (label s : List ℕ) → printable label ≡ true → All IsPrintable s → All IsPrintable (label ++ s)
labelled label s e h = joined label s (printable-All label e) h

hex_string-All : (bs : List ℕ) → All IsByte bs → All IsPrintable (hex_string bs)
hex_string-All [] h = tt
hex_string-All (b ∷ bs) (small, h) = (
  (ground (arith, small), ground (arith, small)),
  ((ground (arith, small), ground (arith, small)), hex_string-All bs h),
)

spaced-All : (bs : List ℕ) → All IsByte bs → All IsPrintable (spaced bs)
spaced-All [] h = tt
spaced-All (b ∷ []) h = hex_string-All (b ∷ []) h
spaced-All (b ∷ c ∷ bs) (small, h) =
    joined (hex_string (b ∷ [])) (b' ' ∷ spaced (c ∷ bs)) (hex_string-All (b ∷ []) (small, tt))
      ((omega arith, omega arith), spaced-All (c ∷ bs) h)

temps_text-All : (ts : List ℕ) → All IsPrintable (temps_text ts)
unfolding temps_text
temps_text-All [] = tt
temps_text-All (t ∷ ts) = (
  (omega arith, omega arith),
  joined (decimal t) (b'F' ∷ temps_text ts) (decimal-All t)
      ((omega arith, omega arith), temps_text-All ts),
)

counts_text-All : (i : ℕ) (bs : List ℕ) → All IsPrintable (counts_text i bs)
unfolding counts_text
counts_text-All i [] = tt
counts_text-All i (a ∷ []) = tt
counts_text-All i (a ∷ b ∷ bs) =
    let rest = counts_text-All (i + 2) bs in
    elim (Bool-cases (a == 0 && b == 0)) [
      | inl quiet ↦ rw quiet rest
      | inr busy ↦ rw busy (
        (omega arith, omega arith),
        (
          (omega arith, omega arith),
          joined (decimal i) _ (decimal-All i) (
            (omega arith, omega arith),
            joined (decimal a) _ (decimal-All a) (
              (omega arith, omega arith),
              joined (decimal b) (counts_text (i + 2) bs) (decimal-All b) rest,
            ),
          ),
        ),
      )
    ]

bytes_text-All : (bs : List ℕ) → All IsByte bs → All IsPrintable (bytes_text bs)
bytes_text-All bs h = joined (decimal (length bs)) _ (decimal-All (length bs)) (
    labelled (b' ' ∷ b'b' ∷ b'y' ∷ b't' ∷ b'e' ∷ b's' ∷ b'?' ∷ b' ' ∷ []) (spaced bs) refl
      (spaced-All bs h))

sent_received-All : (s r : ℕ) → All IsPrintable (sent_received s r)
sent_received-All s r = joined (decimal s) _ (decimal-All s) (
    labelled (b's' ∷ b'/' ∷ []) _ refl
      (joined (decimal r) (b'r' ∷ []) (decimal-All r) (printable-All (b'r' ∷ []) refl)))

module _ (volts : ℕ → List ℕ) (plain : (v : ℕ) → All IsPrintable (volts v)) where
  level_text-All : (bs : List ℕ) → All IsByte bs → All IsPrintable (level_text volts bs)
  level_text-All bs h =
      let low = get_or bs 1 0 * 256 + get_or bs 0 0 in
      let high = get_or bs 3 0 * 256 + get_or bs 2 0 in
      elim (Bool-cases (not (length bs == 4))) [
        | inl odd ↦ rw odd (
            labelled (level_label ++ (b':' ∷ b' ' ∷ [])) (bytes_text bs) refl (bytes_text-All bs h))
        | inr four ↦ rw four (
            labelled (level_label ++ (b's' ∷ b':' ∷ b' ' ∷ [])) _ refl (
              joined (volts low) _ (plain low) (
                labelled (b'V' ∷ b' ' ∷ []) _ refl
                  (joined (volts high) (b'V' ∷ []) (plain high) (printable-All (b'V' ∷ []) refl)))))
      ]

  rssi_text-All : (bs : List ℕ) → All IsByte bs → All IsPrintable (rssi_text volts bs)
  rssi_text-All bs h = elim (Bool-cases (ltb (length bs) 4)) [
    | inl short ↦ rw short (labelled rssi_label (bytes_text bs) refl (bytes_text-All bs h))
    | inr full ↦ rw full (
        joined (b'R' ∷ b'F' ∷ b':' ∷ b' ' ∷ sent_received (get_or bs 0 0) (get_or bs 1 0)) _
          (labelled (b'R' ∷ b'F' ∷ b':' ∷ b' ' ∷ []) _ refl
            (sent_received-All (get_or bs 0 0) (get_or bs 1 0)))
          (joined
            (b' '
              ∷ b'E'
              ∷ b't'
              ∷ b'h'
              ∷ b':'
              ∷ b' '
              ∷ sent_received (get_or bs 2 0) (get_or bs 3 0))
            _
            (labelled (b' ' ∷ b'E' ∷ b't' ∷ b'h' ∷ b':' ∷ b' ' ∷ []) _ refl
              (sent_received-All (get_or bs 2 0) (get_or bs 3 0)))
            (counts_text-All 4 (drop 4 bs))))
  ]

  -- The text of any message of bytes but a log message, whatever its kind and its length, is made of
  -- printable characters of ASCII only, provided that voltages are printed so: it stays on its line.
  pub rf_format-IsPrintable :
      (m : RfMessage)
      → All IsByte m.payload
      → (m.kind == 2) ≡ false
      → All IsPrintable (rf_format volts m)
  unfolding rf_format
  rf_format-IsPrintable m h no_log = elim (Bool-cases (m.kind == 4)) [
    | inl temp ↦
        rw (no_log, temp)
          (labelled temp_label (temps_text m.payload) refl (temps_text-All m.payload))
    | inr no_temp ↦ elim (Bool-cases (m.kind == 7)) [
      | inl level ↦ rw (no_log, no_temp, level) (level_text-All m.payload h)
      | inr no_level ↦ elim (Bool-cases (m.kind == 8)) [
        | inl rssi ↦ rw (no_log, no_temp, no_level, rssi) (rssi_text-All m.payload h)
        | inr unknown ↦
            rw (no_log, no_temp, no_level, unknown)
              (labelled unknown_label (spaced m.payload) refl (spaced-All m.payload h))
      ]
    ]
  ]
