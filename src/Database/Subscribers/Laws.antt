-- ===== src/Database/Subscribers/Laws.antt =====
-- hub/database/rf_subscribe.go: who hears a message.
use widuino.Base.{ℕ, List, [], ◌∷◌, ◌++◌, some, Bool, true, false, ◌||◌, ◌==◌, if◌then◌else◌}
use widuino.Base.{◌≡◌, refl, sym, ap, ◌∙◌, inl, inr, arith, Bool-cases, length}
use widuino.Base.Int.{ℤ, lebℤ}
use widuino.Database.Subscribers.{publish_to, remove_from, rf_unsubscribe}

-- Whether a channel is in an array.
abbrev pub occurs : ℕ → List ℕ → Bool
occurs c [] = false
occurs c (d ∷ ds) = d == c || occurs c ds

-- A channel is in an array once at most.
abbrev pub IsOnce : ℕ → List ℕ → Type 0
IsOnce c [] = Unit
IsOnce c (d ∷ ds) = if d == c then occurs c ds ≡ false else IsOnce c ds

-- Sends on all channels but one.
abbrev pub without {ℓ} : {M : Type ℓ} → ℕ → List (ℕ × M) → List (ℕ × M)
without c [] = []
without c ((d, m) ∷ out) = let rest = without c out in if d == c then rest else (d, m) ∷ rest

remove_from-absent :
    (c : ℕ) (found skip : Bool) (ds : List ℕ) (ss : List ℤ)
    → occurs c ds ≡ false
    → length ds ≡ length ss
    → remove_from c found skip ds ss ≡ some ((ds, ss), found)
unfolding remove_from
remove_from-absent c found skip [] [] h e = refl
remove_from-absent c found skip [] (s ∷ ss) h e = absurd (omega arith)
remove_from-absent c found skip (d ∷ ds) [] h e = absurd (omega arith)
remove_from-absent c found skip (d ∷ ds) (s ∷ ss) h e =
    ground (arith, remove_from-absent c found false ds ss)

-- A channel that is added hears a message last, if it starts no later.
pub publish_to-snoc :
    {M : Type 0} (at : M → ℤ) (m : M) (ds : List ℕ) (ss : List ℤ) (c : ℕ) (s : ℤ)
    → length ds ≡ length ss
    → (out : List (ℕ × M)) × (publish_to at m ds ss ≡ some out)
      × (publish_to at m (ds ++ (c ∷ [])) (ss ++ (s ∷ []))
          ≡ some (out ++ (if lebℤ s (at m) then (c, m) ∷ [] else [])))
unfolding publish_to
publish_to-snoc at m [] [] c s e = elim (Bool-cases (lebℤ s (at m))) [
  | inl wanted ↦ ([], refl, rw wanted)
  | inr early ↦ ([], refl, rw early)
]
publish_to-snoc at m [] (t ∷ ss) c s e = absurd (omega arith)
publish_to-snoc at m (d ∷ ds) [] c s e = absurd (omega arith)
publish_to-snoc at m (d ∷ ds) (t ∷ ss) c s e =
    let (out, before, after) = publish_to-snoc at m ds ss c s (omega arith) in
    elim (Bool-cases (lebℤ t (at m))) [
      | inl wanted ↦ ((d, m) ∷ out, rw (before, wanted), rw (after, wanted))
      | inr early ↦ (out, rw (before, early), rw (after, early))
    ]

module _ {M : Type 0} (at : M → ℤ) where
  -- With arrays of one length a message is published, and none is sent on a channel that is not there.
  pub publish_to-absent :
      (c : ℕ) (m : M) (ds : List ℕ) (ss : List ℤ)
      → occurs c ds ≡ false
      → length ds ≡ length ss
      → (out : List (ℕ × M)) × (publish_to at m ds ss ≡ some out) × (without c out ≡ out)
  unfolding publish_to
  publish_to-absent c m [] [] h e = ([], refl, refl)
  publish_to-absent c m [] (s ∷ ss) h e = absurd (omega arith)
  publish_to-absent c m (d ∷ ds) [] h e = absurd (omega arith)
  publish_to-absent c m (d ∷ ds) (s ∷ ss) h e =
      let (out, sent, same) = publish_to-absent c m ds ss (ground (arith, h)) (omega arith) in
      let other : d == c ≡ false = ground (arith, h) in
      elim (Bool-cases (lebℤ s (at m))) [
        | inl wanted ↦ ((d, m) ∷ out, rw (sent, wanted), rw other (ap (◌∷◌ (d, m)) same))
        | inr early ↦ (out, rw (sent, early), same)
      ]

  record IsUnsubscribed (c : ℕ) (m : M) (ds : List ℕ) (ss : List ℤ) : Type 0 where
    subs : List ℕ
    starts : List ℤ
    out : List (ℕ × M)
    removed : remove_from c false false ds ss ≡ some ((subs, starts), occurs c ds)
    published : publish_to at m ds ss ≡ some out
    others : publish_to at m subs starts ≡ some (without c out)
    gone : occurs c subs ≡ false
    lockstep : length subs ≡ length starts

  unsubscribed :
      (c : ℕ) (m : M) (ds : List ℕ) (ss : List ℤ)
      → IsOnce c ds
      → length ds ≡ length ss
      → IsUnsubscribed c m ds ss
  unfolding publish_to remove_from
  unsubscribed c m [] [] once e = record {
    subs = [];
    starts = [];
    out = [];
    removed = refl;
    published = refl;
    others = refl;
    gone = refl;
    lockstep = refl;
  }
  unsubscribed c m [] (s ∷ ss) once e = absurd (omega arith)
  unsubscribed c m (d ∷ ds) [] once e = absurd (omega arith)
  unsubscribed c m (d ∷ ds) (s ∷ ss) once e = elim (Bool-cases (d == c)) [
    | inl hit ↦
        let absent : occurs c ds ≡ false = (rw hit at once) in
        let (out, sent, same) = publish_to-absent c m ds ss absent (omega arith) in
        elim (Bool-cases (lebℤ s (at m))) [
          | inl wanted ↦ record {
            subs = ds;
            starts = ss;
            out = (d, m) ∷ out;
            removed = rw (hit, remove_from-absent c true true ds ss absent (omega arith));
            published = rw (sent, wanted);
            others = rw hit (sent ∙ ap some (sym same));
            gone = absent;
            lockstep = omega arith;
          }
          | inr early ↦ record {
            subs = ds;
            starts = ss;
            out = out;
            removed = rw (hit, remove_from-absent c true true ds ss absent (omega arith));
            published = rw (sent, early);
            others = sent ∙ ap some (sym same);
            gone = absent;
            lockstep = omega arith;
          }
        ]
    | inr miss ↦
        let v = unsubscribed c m ds ss (rw miss at once) (omega arith) in
        elim (Bool-cases (lebℤ s (at m))) [
          | inl wanted ↦ record {
            subs = d ∷ v.subs;
            starts = s ∷ v.starts;
            out = (d, m) ∷ v.out;
            removed = rw (miss, v.removed);
            published = rw (v.published, wanted);
            others = rw (v.others, wanted, miss);
            gone = ground (arith, miss, v.gone);
            lockstep = omega (arith, v.lockstep);
          }
          | inr early ↦ record {
            subs = d ∷ v.subs;
            starts = s ∷ v.starts;
            out = v.out;
            removed = rw (miss, v.removed);
            published = rw (v.published, early);
            others = rw (v.others, early);
            gone = ground (arith, miss, v.gone);
            lockstep = omega (arith, v.lockstep);
          }
        ]
  ]

  -- From arrays of one length that hold a channel once at most, RFUnsubscribe ends without a panic and
  -- says whether the channel was there. The arrays keep to one length, the channel is gone, and what
  -- is published next is sent on every other channel as it would have been, and not on this one.
  pub rf_unsubscribe-publish_to :
      (c : ℕ) (m : M) (ds : List ℕ) (ss : List ℤ)
      → IsOnce c ds
      → length ds ≡ length ss
      → (subs : List ℕ) × (starts : List ℤ) × (out : List (ℕ × M)) × (rf_unsubscribe c ds ss
          ≡ some ((subs, starts), occurs c ds))
        × (length subs ≡ length starts)
        × (occurs c subs ≡ false)
        × (publish_to at m ds ss ≡ some out)
        × (publish_to at m subs starts ≡ some (without c out))
  unfolding rf_unsubscribe
  rf_unsubscribe-publish_to c m ds ss once e =
      let v = unsubscribed c m ds ss once e in
      (v.subs, v.starts, v.out, v.removed, v.lockstep, v.gone, v.published, v.others)
