-- ===== src/Boot/Whitening/Laws.antt =====
-- De-whitening fills the front of its output, and undoes itself.
use widuino.Base.{ℕ, suc, ◌+◌, ◌*◌, ◌≤◌, List, [], ◌∷◌, ◌++◌, some, ◌≡◌, refl, ap, ◌∙◌}
use widuino.Base.{arith, length, drop, All, append-nil, drop-all}
use widuino.Base.Words.{u8, IsByte}
use widuino.Base.Xor.{xor_cancel, xor_width}
use widuino.Boot.Whitening.{whiten, de_whiten_from, de_whiten}
use mathlib.Core.Option

-- Byte by byte, from position `i` on.
abbrev pub whitened : ℕ → List ℕ → List ℕ
whitened i [] = []
whitened i (b ∷ rest) = whiten i b ∷ whitened (suc i) rest

de_whiten_from-whitened :
    (i : ℕ) (xs out : List ℕ)
    → length xs ≤ length out
    → de_whiten_from i xs out ≡ some (whitened i xs ++ drop (length xs) out)
unfolding de_whiten_from
de_whiten_from-whitened i [] out h = refl
de_whiten_from-whitened i (b ∷ rest) [] h = absurd (omega arith)
de_whiten_from-whitened i (b ∷ rest) (o ∷ out) h =
    ap (Option.map (◌∷◌ (whiten i b))) (de_whiten_from-whitened (suc i) rest out (omega arith))

pub de_whiten-whitened :
    (xs out : List ℕ)
    → length xs ≤ length out
    → de_whiten xs out ≡ some (whitened 0 xs ++ drop (length xs) out)
unfolding de_whiten
de_whiten-whitened xs out h = de_whiten_from-whitened 0 xs out h

pub whitened_twice : (i : ℕ) (xs : List ℕ) → whitened i (whitened i xs) ≡ xs
whitened_twice i [] = refl
whitened_twice i (b ∷ rest) =
    ap (λ t. t ∷ whitened (suc i) (whitened (suc i) rest)) (xor_cancel b (u8 (211 * i)))
    ∙ ap (◌∷◌ b) (whitened_twice (suc i) rest)

pub length-whitened : (i : ℕ) (xs : List ℕ) → length (whitened i xs) ≡ length xs
length-whitened i [] = refl
length-whitened i (b ∷ rest) = ap suc (length-whitened (suc i) rest)

pub whitened-append :
    (i : ℕ) (xs ys : List ℕ) → whitened i (xs ++ ys) ≡ whitened i xs ++ whitened (i + length xs) ys
whitened-append i [] ys = ap (λ k. whitened k ys) (omega arith)
whitened-append i (b ∷ rest) ys = ap (◌∷◌ (whiten i b)) (
    whitened-append (suc i) rest ys
    ∙ ap (λ k. whitened (suc i) rest ++ whitened k ys) (omega arith))

pub whitened-IsByte : (i : ℕ) (xs : List ℕ) → All IsByte xs → All IsByte (whitened i xs)
whitened-IsByte i [] h = tt
whitened-IsByte i (b ∷ rest) h = (
  xor_width 8 b (u8 (211 * i)) (omega (arith, h.0)) (omega arith),
  whitened-IsByte (suc i) rest h.1,
)

-- Whitening a payload into a buffer of its own length, and what comes out into another such, gives
-- the payload back.
de_whiten_twice :
    (data_buf out_buf back_buf : List ℕ)
    → length out_buf ≡ length data_buf
    → length back_buf ≡ length data_buf
    → (sent : List ℕ) × (de_whiten data_buf out_buf ≡ some sent)
      × (de_whiten sent back_buf ≡ some data_buf)
unfolding de_whiten
de_whiten_twice xs out back h k = (whitened 0 xs, once xs out h, again)
  where
    once : (ys zs : List ℕ) → length zs ≡ length ys → de_whiten_from 0 ys zs ≡ some (whitened 0 ys)
    once ys zs e =
        de_whiten_from-whitened 0 ys zs (omega arith)
        ∙ ap some (
            ap (◌++◌ (whitened 0 ys)) (drop-all (length ys) zs (omega arith))
            ∙ append-nil (whitened 0 ys))

    again : de_whiten_from 0 (whitened 0 xs) back ≡ some xs
    again =
        once (whitened 0 xs) back (omega (arith, length-whitened 0 xs))
        ∙ ap some (whitened_twice 0 xs)
