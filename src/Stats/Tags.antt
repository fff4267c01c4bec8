-- ===== src/Stats/Tags.antt =====
-- OLD/flow/gadgets/stats/stats.go: the tag of a value is taken apart into prefix and time.
use widuino.Base.{ℕ, ◌/◌, ◌^◌, ◌<◌, List, [], ◌∷◌, ◌++◌, none, some, true, false, ◌==◌, ltb, length}
use widuino.Base.{◌≡◌, refl, ap, ◌∙◌, arith, All, length-append}
use widuino.Base.Int.{pos}
use widuino.Base.Dict.{bytes_key}
use widuino.Base.Decimal.{decimal}
use widuino.Base.Decimal.ReadBack.{IsDigit, decimal-IsDigit, atoi-decimal}
use widuino.Interpol8.Point.{Floats}
use widuino.Stats.{Aggregator, with_char, split_last, process, process_parts, process_tag}

abbrev pub prefix_of : List ℕ → List ℕ
prefix_of name = name ++ (b'/' ∷ [])

split_last-digits : (ds : List ℕ) → All IsDigit ds → split_last ds ≡ none
unfolding split_last
split_last-digits [] h = refl
split_last-digits (d ∷ ds) h =
    let other : d == 47 ≡ false = ground (arith, h.0.0) in
    ap (with_char d ds) (split_last-digits ds h.1) ∙ rw other refl

split_last-tag :
    (name ds : List ℕ)
    → All IsDigit ds
    → split_last (name ++ (b'/' ∷ ds)) ≡ some (prefix_of name, ds)
unfolding split_last
split_last-tag [] ds h = ap (with_char b'/' ds) (split_last-digits ds h)
split_last-tag (c ∷ name) ds h = ap (with_char c (name ++ (b'/' ∷ ds))) (split_last-tag name ds h)

-- A value as it comes in: the sensor's name, the time and the value.
pub record Sample (F : Type 0) : Type 0 where
  pub name : List ℕ
  pub ms : ℕ
  pub val : F

abbrev pub IsSample : {F : Type 0} → Sample F → Type 0
IsSample x = (0 < length x.name) × (x.ms < 2 ^ 63)

abbrev pub tags : {F : Type 0} → List (Sample F) → List (List ℕ × F)
tags [] = []
tags (x ∷ xs) = (x.name ++ (b'/' ∷ decimal x.ms), x.val) ∷ tags xs

module _ {F : Type 0} (fl : Floats F) (one : F) where
  pub process_tag-sample :
      (step_ms : ℕ) (x : Sample F) (g : Aggregator F)
      → 0 < step_ms
      → IsSample x
      → process_tag fl one step_ms (x.name ++ (b'/' ∷ decimal x.ms)) x.val g
        ≡ some (process fl one (prefix_of x.name) (pos (x.ms / step_ms)) x.val g)
  unfolding process_tag
  process_tag-sample step_ms x g hs h =
      let long : ltb 1 (length (prefix_of x.name)) ≡ true =
        ground (arith, h.0, length-append x.name (b'/' ∷ [])) in
      let some_step : step_ms == 0 ≡ false = ground (arith, hs) in
      ap (process_parts fl one step_ms x.val g)
        (split_last-tag x.name (decimal x.ms) (decimal-IsDigit x.ms))
      ∙ rw (atoi-decimal x.ms h.1, long, some_step) refl
