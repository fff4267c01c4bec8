-- ===== src/Boot/FilePath.antt =====
-- Go's package path on byte strings, as far as hub/boot_data.go uses it: Clean, Join, Dir.
use widuino.Base.{ℕ, List, [], ◌∷◌, ◌++◌, Bool, true, false, ◌≡◌, refl, ◌==◌, if◌then◌else◌}
use widuino.Base.Dict.{bytes_same}
use mathlib.Core.List.{reverse}

-- The parts between slashes; `part` is the one at hand, backwards.
abbrev pub split_slash : List ℕ → List ℕ → List (List ℕ)
split_slash part [] = reverse part ∷ []
split_slash part (c ∷ p) =
    let next = reverse part ∷ split_slash [] p in
    let longer = split_slash (c ∷ part) p in if c == b'/' then next else longer

abbrev dots : List ℕ
dots = b'.' ∷ b'.' ∷ []

-- `..` takes the last part back, if there is one that is not `..` itself.
abbrev go_up : Bool → List (List ℕ) → List (List ℕ)
go_up true [] = []
go_up false [] = dots ∷ []
go_up rooted (q ∷ out) = if bytes_same q dots then dots ∷ q ∷ out else out

-- The parts that Clean keeps, backwards.
abbrev pub clean_parts : Bool → List (List ℕ) → List (List ℕ) → List (List ℕ)
clean_parts rooted out [] = out
clean_parts rooted out ([] ∷ ps) = clean_parts rooted out ps
clean_parts rooted out ((c ∷ p) ∷ ps) =
    clean_parts rooted
      (if bytes_same (c ∷ p) (b'.' ∷ [])
        then out
        else if bytes_same (c ∷ p) dots
        then go_up rooted out
        else (c ∷ p) ∷ out)
      ps

abbrev pub with_slashes : List (List ℕ) → List ℕ
with_slashes [] = []
with_slashes (p ∷ []) = p
with_slashes (p ∷ q ∷ ps) = p ++ (b'/' ∷ with_slashes (q ∷ ps))

abbrev pub or_dot : List ℕ → List ℕ
or_dot [] = b'.' ∷ []
or_dot (c ∷ p) = c ∷ p

unfoldable pub clean : List ℕ → List ℕ
clean [] = b'.' ∷ []
clean (c ∷ p) =
    let parts =
      λ (rooted : Bool). with_slashes (reverse (clean_parts rooted [] (split_slash [] (c ∷ p)))) in
    if c == b'/' then b'/' ∷ parts true else or_dot (parts false)

unfoldable pub join : List ℕ → List ℕ → List ℕ
join [] [] = []
join [] (c ∷ file) = clean (c ∷ file)
join (c ∷ dir) file = clean ((c ∷ dir) ++ (b'/' ∷ file))

-- The path up to its last slash.
abbrev pub front_of : List ℕ → List ℕ → List ℕ → List ℕ
front_of done part [] = done
front_of done part (c ∷ p) =
    let hit = front_of (done ++ (part ++ (c ∷ []))) [] p in
    let miss = front_of done (part ++ (c ∷ [])) p in if c == b'/' then hit else miss

unfoldable pub dir : List ℕ → List ℕ
dir p = clean (front_of [] [] p)

joins : join (b'h' ∷ b'/' ∷ []) (b'.' ∷ b'.' ∷ b'/' ∷ b'x' ∷ []) ≡ b'x' ∷ []
unfolding join clean
joins = refl

dirs : dir (b'/' ∷ b'a' ∷ b'/' ∷ b'b' ∷ b'/' ∷ b'c' ∷ []) ≡ b'/' ∷ b'a' ∷ b'/' ∷ b'b' ∷ []
unfolding dir clean
dirs = refl
