-- ===== src/Database/Messages/InStep.antt =====
-- hub/database/rf_subscribe.go and rfmessage.go: what every step keeps true while a new subscriber
-- catches up: what it has been sent, with what is still to be sent, is what the store has for it.
use widuino.Base.{ℕ, suc, ◌≤◌, ◌<◌, List, [], ◌∷◌, ◌++◌, none, some, Bool, true, false}
use widuino.Base.{
  ◌≡◌, ◌≢◌, refl, sym, ap, ◌∙◌, inl, inr, arith, All, Bool-cases, Option-cases, append-nil,
  append_assoc,
}
use widuino.Base.Dict.{Dict}
use widuino.Base.Int.{ℤ, pos, next}
use widuino.Gears.{RfMessage}
use widuino.Database.{Codec}
use widuino.Database.Subscribers.{CatchUp, publish_to}
use widuino.Database.Messages.Log.{time, log_insert, log_range, IsLog}
use widuino.Database.Messages.CatchUp.{sent_at, last_of, log_range-IsTimed}
use widuino.Database.Messages.Rounds.{last_of-small}
use widuino.Database.Messages.Order.{IsOrdered, All-left}
use widuino.Database.Messages.Growth.{
  log_range-append, log_range-one, log_insert-last, IsOrdered-before, last_of-before,
  log_range-before, log_range-behind_all,
}
use widuino.Database.Messages.HandOver.{HandOver, on_channel, publish_done}
use widuino.Database.Messages.LeftOver.{
  waiting, left_over, IsIncoming, IsLastOf, IsListed, publish_to-listed, waiting-early,
  empty_or_not,
}

-- The state that a round leads to, with the arrays then.
abbrev pub after_round :
    {L : Type 0} → HandOver L → CatchUp RfMessage → List ℕ → List ℤ → HandOver L
after_round s h subs starts = record s {
  sent = s.sent ++ h.sent;
  last_at = next h.last_at;
  is_live = h.locked;
  subs = subs;
  starts = starts;
}

module _ {L : Type 0} (codec : Codec RfMessage) (entries : L → Dict (List ℕ) (List ℕ))
    (c start : ℕ) where
  pub record IsInStep (s : HandOver L) : Type 0 where
    pub held : IsLog codec s.stored (entries s.store)
    pub ordered : IsOrdered s.stored
    pub complete : s.sent ++ left_over s ≡ log_range start 0 s.stored
    pub from : ℕ
    pub starts_at : s.last_at ≡ pos from
    pub in_width : from < 10000000000000
    pub not_ahead : (t : ℕ) → start ≤ t → 0 < t → All (λ n. time n < t) s.stored → from ≤ t
    pub newest : IsLastOf s.pending s.stored
    pub listed : IsListed c s.is_live s.last_at s.subs s.starts

  -- A message that is stored is left over.
  left_over-stored :
      (s : HandOver L) (m : RfMessage) (from : ℕ)
      → s.last_at ≡ pos from
      → s.pending ≡ none
      → from ≤ time m
      → m.at ≡ pos (time m)
      → left_over (record s { stored = s.stored ++ (m ∷ []); pending = some m })
        ≡ left_over s ++ (m ∷ [])
  left_over-stored s m from at free le timed = elim (Bool-cases s.is_live) [
    | inl live ↦ rw (live, free, at, timed) (ground (arith, le))
    | inr catching ↦
        rw (catching, at)
          (log_range-append from s.stored (m ∷ [])
            ∙ ap (λ r. log_range from 0 s.stored ++ r) (log_range-one from m le))
  ]

  pub stored-IsInStep :
      (s : HandOver L) (l' : L) (m : RfMessage)
      → IsInStep s
      → s.pending ≡ none
      → IsIncoming start m
      → IsOrdered (s.stored ++ (m ∷ []))
      → IsLog codec (log_insert m s.stored) (entries l')
      → IsInStep (record s { store = l'; stored = s.stored ++ (m ∷ []); pending = some m })
  stored-IsInStep s l' m v free comes ord logged =
      let before = IsOrdered-before s.stored [] m ord in
      let le = v.not_ahead (time m) comes.1 comes.2 before in
      record {
        held = rw (log_insert-last m s.stored before) at logged;
        ordered = ord;
        complete =
            ap (λ r. s.sent ++ r) (left_over-stored s m v.from v.starts_at free le comes.0.0)
            ∙ sym (append_assoc s.sent (left_over s) (m ∷ []))
            ∙ ap (λ r. r ++ (m ∷ [])) v.complete
            ∙ ap (λ r. log_range start 0 s.stored ++ r) (sym (log_range-one start m comes.1))
            ∙ sym (log_range-append start s.stored (m ∷ []));
        from = v.from;
        starts_at = v.starts_at;
        in_width = v.in_width;
        not_ahead = λ t h p b. v.not_ahead t h p (All-left _ s.stored (m ∷ []) b);
        newest = λ m' e. (s.stored, ap (λ x. s.stored ++ (x ∷ [])) (cc e));
        listed = v.listed;
      }

  -- A message that is published goes to the channel if it is left over.
  pub published-IsInStep :
      (s : HandOver L) (m : RfMessage)
      → IsInStep s
      → s.pending ≡ some m
      → (s' : HandOver L) × (publish_done c s (publish_to sent_at m s.subs s.starts) ≡ some s')
        × (s'.stored ≡ s.stored)
        × IsInStep s'
  published-IsInStep s m v wait =
      let (out, done, here) = publish_to-listed c m s.is_live s.last_at s.subs s.starts v.listed in
      let t : HandOver L = record s { pending = none; sent = s.sent ++ on_channel c out } in
      let left : on_channel c out ++ left_over t ≡ left_over s = elim (Bool-cases s.is_live) [
        | inl live ↦ rw (here, live, wait) (append-nil (waiting s.last_at (some m)))
        | inr catching ↦ rw (here, catching)
      ] in
      (
        t,
        rw done,
        refl,
        record {
          held = v.held;
          ordered = v.ordered;
          complete =
              append_assoc s.sent (on_channel c out) (left_over t)
              ∙ ap (λ r. s.sent ++ r) left
              ∙ v.complete;
          from = v.from;
          starts_at = v.starts_at;
          in_width = v.in_width;
          not_ahead = v.not_ahead;
          newest = λ m' e. cc;
          listed = v.listed;
        },
      )

  -- Behind the last message that is stored, nothing is left over.
  left_over-behind :
      (s : HandOver L) (k : ℕ) (locked : Bool)
      → IsInStep s
      → log_range k 0 s.stored ≡ []
      → left_over (record s { last_at = pos k; is_live = locked }) ≡ []
  left_over-behind s k false v none_left = none_left
  left_over-behind s k true v none_left = elim (Option-cases s.pending) [
    | inl free ↦ rw free refl
    | inr (m, wait) ↦
        let (earlier, e) = v.newest m wait in
        rw wait (waiting-early k m earlier (rw e at none_left))
  ]

  -- A round leaves nothing over, if no message waits when it finds none.
  left_over-round :
      (s : HandOver L) (from : ℕ) (locked : Bool)
      → IsInStep s
      → (locked ≡ false → log_range from 0 s.stored ≢ [])
      → (log_range from 0 s.stored ≡ [] → s.pending ≡ none)
      → left_over (record s {
        last_at = pos (suc (last_of 0 (log_range from 0 s.stored)));
        is_live = locked;
      })
        ≡ []
  left_over-round s from locked v lost fair = elim (empty_or_not (log_range from 0 s.stored)) [
    | inl nothing ↦ elim (Bool-cases locked) [
      | inl kept ↦ rw (kept, fair nothing) refl
      | inr gone ↦ absurd (lost gone nothing)
    ]
    | inr some_left ↦
        left_over-behind s (suc (last_of 0 (log_range from 0 s.stored))) locked v
          (log_range-behind_all from s.stored v.ordered some_left)
  ]

  pub round-IsInStep :
      (s : HandOver L) (h : CatchUp RfMessage) (subs : List ℕ) (starts : List ℤ) (v : IsInStep s)
      → s.is_live ≡ false
      → h.sent ≡ log_range v.from 0 s.stored
      → next h.last_at ≡ pos (suc (last_of 0 (log_range v.from 0 s.stored)))
      → (h.locked ≡ false → log_range v.from 0 s.stored ≢ [])
      → (log_range v.from 0 s.stored ≡ [] → s.pending ≡ none)
      → IsListed c h.locked (next h.last_at) subs starts
      → IsInStep (after_round s h subs starts)
  round-IsInStep s h subs starts v catching sent last lost fair listed =
      let chunk = log_range v.from 0 s.stored in
      let found : left_over s ≡ chunk = rw (catching, v.starts_at) refl in
      record {
        held = v.held;
        ordered = v.ordered;
        complete =
            rw (last, sent, left_over-round s v.from h.locked v lost fair)
              (append-nil (s.sent ++ chunk) ∙ ap (λ r. s.sent ++ r) (sym found) ∙ v.complete);
        from = suc (last_of 0 chunk);
        starts_at = last;
        in_width =
            last_of-small 0 chunk (omega arith)
              (log_range-IsTimed codec v.from 0 s.stored (entries s.store) v.held);
        not_ahead = λ t hs p b. last_of-before 0 t chunk p (log_range-before v.from t s.stored b);
        newest = v.newest;
        listed = listed;
      }
