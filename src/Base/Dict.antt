-- ===== src/Base/Dict.antt =====
-- Go maps as association lists with one entry for a key, over keys with a Boolean equality.
use Prim.Native.Nat.{ℕ}
use mathlib.Core.Path.{◌≡◌, refl, sym, ap, ◌∙◌}
use mathlib.Core.Logic.{◌↔◌, ◌≢◌, inl, inr}
use mathlib.Core.Bool.{Bool, true, false, ◌&&◌}
use mathlib.Core.List.{List, [], ◌∷◌}
use mathlib.Core.Option.{Option, none, some}
use native.Mathlib.Omega.{arith}
use widuino.Base.Cond.{◌==◌, ==_iff, if◌then◌else◌, Bool-cases}
use widuino.Base.Lists.{All}

pub record Key {ℓ} (K : Type ℓ) : Type ℓ where
  pub same : K → K → Bool
  pub same_iff : (a b : K) → (same a b ≡ true) ↔ (a ≡ b)

instance abbrev pub nat_key : Key ℕ
nat_key = record { same = ◌==◌; same_iff = ==_iff }

-- Equality of byte strings.
abbrev pub bytes_same : List ℕ → List ℕ → Bool
bytes_same [] [] = true
bytes_same [] (y ∷ ys) = false
bytes_same (x ∷ xs) [] = false
bytes_same (x ∷ xs) (y ∷ ys) = x == y && bytes_same xs ys

bytes_same→eq : (a b : List ℕ) → bytes_same a b ≡ true → a ≡ b
bytes_same→eq [] [] h = refl
bytes_same→eq [] (y ∷ ys) h = cc
bytes_same→eq (x ∷ xs) [] h = cc
bytes_same→eq (x ∷ xs) (y ∷ ys) h = ground (arith, bytes_same→eq xs ys)

bytes_same_refl : (a : List ℕ) → bytes_same a a ≡ true
bytes_same_refl [] = refl
bytes_same_refl (x ∷ xs) = ground (arith, bytes_same_refl xs)

pub bytes_same_iff : (a b : List ℕ) → (bytes_same a b ≡ true) ↔ (a ≡ b)
bytes_same_iff a b = (bytes_same→eq a b, λ e. ap (bytes_same a) (sym e) ∙ bytes_same_refl a)

instance abbrev pub bytes_key : Key (List ℕ)
bytes_key = record { same = bytes_same; same_iff = bytes_same_iff }

abbrev pub Dict {ℓ κ} : Type ℓ → Type κ → Type (ℓ ⊔ κ)
Dict K V = List (K × V)

module _ {ℓ κ} {K : Type ℓ} {V : Type κ} ⦃e : Key K⦄ where
  unfoldable pub lookup : K → Dict K V → Option V
  lookup k [] = none
  lookup k ((j, v) ∷ m) = if e.same j k then some v else lookup k m

  unfoldable pub insert : K → V → Dict K V → Dict K V
  insert k v [] = (k, v) ∷ []
  insert k v ((j, w) ∷ m) = if e.same j k then (k, v) ∷ m else (j, w) ∷ insert k v m

module _ {ℓ κ} {K : Type ℓ} {V : Type κ} ⦃e : Key K⦄ where
  pub lookup-insert_self : (k : K) (v : V) (m : Dict K V) → lookup k (insert k v m) ≡ some v
  unfolding lookup insert
  lookup-insert_self k v [] = rw ((e.same_iff k k).1 refl)
  lookup-insert_self k v ((j, w) ∷ m) = elim (Bool-cases (e.same j k)) [
    | inl hit ↦ rw (hit, lookup, (e.same_iff k k).1 refl)
    | inr miss ↦ rw (miss, lookup, miss) (lookup-insert_self k v m)
  ]

  pub lookup-insert_ne :
      (k j : K) (v : V) (m : Dict K V) → k ≢ j → lookup j (insert k v m) ≡ lookup j m
  unfolding lookup insert
  lookup-insert_ne k j v [] ne = elim (Bool-cases (e.same k j)) [
    | inl hit ↦ absurd (ne ((e.same_iff k j).0 hit))
    | inr miss ↦ rw miss
  ]
  lookup-insert_ne k j v ((i, w) ∷ m) ne = elim (Bool-cases (e.same i k)) [
    | inl hit ↦ elim (Bool-cases (e.same k j)) [
      | inl bad ↦ absurd (ne ((e.same_iff k j).0 bad))
      | inr miss ↦ rw (hit, lookup, miss, (e.same_iff i k).0 hit, miss)
    ]
    | inr other ↦ elim (Bool-cases (e.same i j)) [
      | inl found ↦ rw (other, lookup, found)
      | inr miss ↦ rw (other, lookup, miss) (lookup-insert_ne k j v m ne)
    ]
  ]

  -- What holds of all values holds of the one that is found.
  pub lookup-All {μ} :
      (P : V → Type μ) (k : K) (m : Dict K V) {v : V}
      → All (λ (x : K × V). P x.1) m
      → lookup k m ≡ some v
      → P v
  unfolding lookup
  lookup-All P k [] h found = cc
  lookup-All P k ((j, w) ∷ m) {v} h found = elim (Bool-cases (e.same j k)) [
    | inl hit ↦ rw (let q : w ≡ v = cc (rw hit at found) in q) at h.0
    | inr miss ↦ lookup-All P k m h.1 (rw miss at found)
  ]

  pub All-insert {μ} :
      (P : V → Type μ) (k : K) (v : V) (m : Dict K V)
      → P v
      → All (λ (x : K × V). P x.1) m
      → All (λ (x : K × V). P x.1) (insert k v m)
  unfolding insert
  All-insert P k v [] p h = (p, tt)
  All-insert P k v ((j, w) ∷ m) p h = elim (Bool-cases (e.same j k)) [
    | inl hit ↦ rw hit (p, h.1)
    | inr miss ↦ rw miss (h.0, All-insert P k v m p h.1)
  ]
