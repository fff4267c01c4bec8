-- ===== src/Boot/Whitening.antt =====
-- hub/boot_proto.go: de-whitening of a payload.
pub mod Laws
use widuino.Base.{ℕ, suc, ◌*◌, List, [], ◌∷◌, Option, none, some, bit_xor}
use widuino.Base.Words.{u8}
use mathlib.Core.Option

-- What is stored into `outBuf[i]` for `inBuf[i]`.
abbrev pub whiten : ℕ → ℕ → ℕ
whiten i b = bit_xor b (u8 (211 * i))

-- The loop from index `i` on. It panics where `outBuf` is the shorter, and leaves alone what lies
-- behind the last byte of `inBuf`.
unfoldable pub de_whiten_from : ℕ → List ℕ → List ℕ → Option (List ℕ)
de_whiten_from i [] out = some out
de_whiten_from i (b ∷ rest) [] = none
de_whiten_from i (b ∷ rest) (o ∷ out) =
    Option.map (◌∷◌ (whiten i b)) (de_whiten_from (suc i) rest out)

unfoldable pub de_whiten : List ℕ → List ℕ → Option (List ℕ)
de_whiten in_buf out_buf = de_whiten_from 0 in_buf out_buf
