-- ===== src/Database/Messages/LeftOver.antt =====
-- hub/database/rf_subscribe.go: what is still to be sent to a new subscriber, and what publishing sends
-- it.
use widuino.Base.{
  ℕ, ◌≤◌, ◌<◌, List, [], ◌∷◌, ◌++◌, Option, none, some, Bool, true, false, length, if◌then◌else◌,
}
use widuino.Base.{◌≡◌, ◌≢◌, ◌⊎◌, refl, sym, ap, ◌∙◌, inl, inr, arith, Bool-cases}
use widuino.Base.Int.{ℤ, pos, lebℤ, pos_part}
use widuino.Gears.{RfMessage}
use widuino.Database.Subscribers.{publish_to}
use widuino.Database.Subscribers.Laws.{occurs, without, publish_to-absent, publish_to-snoc}
use widuino.Database.Messages.Log.{time, log_range, IsTimed}
use widuino.Database.Messages.CatchUp.{sent_at}
use widuino.Database.Messages.Growth.{log_range-append, log_range-one}
use widuino.Database.Messages.HandOver.{HandOver, on_channel}

-- ===== One channel =====

on_channel-append :
    {M : Type 0} (c : ℕ) (xs ys : List (ℕ × M))
    → on_channel c (xs ++ ys) ≡ on_channel c xs ++ on_channel c ys
on_channel-append c [] ys = refl
on_channel-append c ((d, m) ∷ xs) ys = ground (arith, on_channel-append c xs ys)

on_channel-without : {M : Type 0} (c : ℕ) (xs : List (ℕ × M)) → on_channel c (without c xs) ≡ []
on_channel-without c [] = refl
on_channel-without c ((d, m) ∷ xs) = ground (arith, on_channel-without c xs)

on_channel-wanted :
    {M : Type 0} (c : ℕ) (m : M) (wanted : Bool)
    → on_channel c (if wanted then (c, m) ∷ [] else []) ≡ (if wanted then m ∷ [] else [])
on_channel-wanted c m true = ground arith
on_channel-wanted c m false = refl

-- ===== What is still to be sent =====

abbrev pub waiting : ℤ → Option RfMessage → List RfMessage
waiting start none = []
waiting start (some m) = if lebℤ start m.at then m ∷ [] else []

-- Before the subscription, what the next round would find; then, the message that waits, if it is not
-- too early.
abbrev pub left_over : {L : Type 0} → HandOver L → List RfMessage
left_over s =
    let found = log_range (pos_part s.last_at) 0 s.stored in
    if s.is_live then waiting s.last_at s.pending else found

-- A message that comes in has a time from 1970 to 2262 that is no earlier than `start`, and not 0.
abbrev pub IsIncoming : ℕ → RfMessage → Type 0
IsIncoming start m = IsTimed m × (start ≤ time m) × (0 < time m)

abbrev pub IsLastOf : Option RfMessage → List RfMessage → Type 0
IsLastOf p ms =
    (m : RfMessage) → p ≡ some m → (earlier : List RfMessage) × (ms ≡ earlier ++ (m ∷ []))

-- The arrays hold the new channel at their end once it is live, and else not at all.
abbrev pub IsListed : ℕ → Bool → ℤ → List ℕ → List ℤ → Type 0
IsListed c true start subs starts =
    (ds : List ℕ) × (ss : List ℤ) × (occurs c ds ≡ false)
    × (length ds ≡ length ss)
    × (subs ≡ ds ++ (c ∷ []))
    × (starts ≡ ss ++ (start ∷ []))
IsListed c false start subs starts = (occurs c subs ≡ false) × (length subs ≡ length starts)

-- What is published goes to the new channel once it is live, if it is not too early.
pub publish_to-listed :
    (c : ℕ) (m : RfMessage) (live : Bool) (start : ℤ) (subs : List ℕ) (starts : List ℤ)
    → IsListed c live start subs starts
    → (out : List (ℕ × RfMessage)) × (publish_to sent_at m subs starts ≡ some out)
      × (on_channel c out ≡ (if live then waiting start (some m) else []))
publish_to-listed c m true start subs starts (ds, ss, gone, e, es, ts) =
    let (out, before, after) = publish_to-snoc sent_at m ds ss c start e in
    let (others, published, silent) = publish_to-absent sent_at c m ds ss gone e in
    let same : others ≡ out = cc (published, before) in
    let quiet : on_channel c out ≡ [] =
      ap (on_channel c) (sym same ∙ sym silent) ∙ on_channel-without c others in
    let last = if lebℤ start m.at then (c, m) ∷ [] else [] in
    (
      out ++ last,
      rw (es, ts) after,
      on_channel-append c out last ∙ rw quiet (on_channel-wanted c m (lebℤ start m.at)),
    )
publish_to-listed c m false start subs starts (gone, e) =
    let (out, sent, silent) = publish_to-absent sent_at c m subs starts gone e in
    (out, sent, ap (on_channel c) (sym silent) ∙ on_channel-without c out)

-- A message that is not behind a time is not left over.
pub waiting-early :
    (k : ℕ) (m : RfMessage) (earlier : List RfMessage)
    → log_range k 0 (earlier ++ (m ∷ [])) ≡ []
    → waiting (pos k) (some m) ≡ []
waiting-early k m earlier e = elim (Bool-cases (lebℤ (pos k) m.at)) [
  | inl late ↦
      let le : k ≤ time m = ground (arith, late) in
      let split =
        log_range-append k earlier (m ∷ [])
        ∙ ap (λ r. log_range k 0 earlier ++ r) (log_range-one k m le) in
      absurd (snoc-nonempty (log_range k 0 earlier) m (sym split ∙ e))
  | inr early ↦ rw early refl
]
  where
    snoc-nonempty : (xs : List RfMessage) (m : RfMessage) → (xs ++ (m ∷ [])) ≢ []
    snoc-nonempty [] m e = cc
    snoc-nonempty (x ∷ xs) m e = cc

pub empty_or_not : (xs : List RfMessage) → (xs ≡ []) ⊎ (xs ≢ [])
empty_or_not [] = inl refl
empty_or_not (x ∷ xs) = inr (λ e. cc)
