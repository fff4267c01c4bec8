-- ===== src/Database/Messages/Turns.antt =====
-- hub/database/rf_subscribe.go and rfmessage.go: what each turn keeps true while a new subscriber
-- catches up, and which turns are fair.
use widuino.Base.{ℕ, List, [], ◌∷◌, ◌++◌, Option, none, some, Bool, true, false, length, ◌==◌}
use widuino.Base.{
  ◌≡◌, refl, ap, ◌∙◌, inl, inr, arith, Bool-cases, Option-cases, append_assoc, length-append,
}
use widuino.Base.Dict.{Dict}
use widuino.Base.Int.{ℤ, pos, next}
use widuino.Gears.{RfMessage}
use widuino.Database.{LevelDb, Codec, IsLevelDb}
use widuino.Database.Subscribers.{CatchUp}
use widuino.Database.Messages.{stamped}
use widuino.Database.Messages.Log.{IsCodec}
use widuino.Database.Messages.Refines.{put_rf_message-IsLog}
use widuino.Database.Messages.Processed.{put_rf_message-cases}
use widuino.Database.Messages.CatchUp.{
  Round, do_catch_up, do_catch_up-sent, do_catch_up-some, do_catch_up-last_at,
}
use widuino.Database.Messages.Order.{IsOrdered, IsOrdered-left}
use widuino.Database.Messages.Growth.{IsOrdered-drop_one}
use widuino.Database.Messages.HandOver.{
  HandOver, Turn, store_one, publish, one_round, take_turn, round_done, when_catching,
}
use widuino.Database.Messages.LeftOver.{IsIncoming, IsListed}
use widuino.Database.Messages.InStep.{
  IsInStep, stored-IsInStep, published-IsInStep, after_round, round-IsInStep,
}

-- What a turn leads to, if it leads to a state.
abbrev IfSome {ℓ} : {A : Type ℓ} → (A → Type 0) → Option A → Type 0
IfSome P none = Unit
IfSome P (some a) = P a

module _ {L : Type 0} (ldb : LevelDb L) (codec : Codec RfMessage) (c : ℕ) where
  -- A round that finds nothing to send comes at a time when no stored message waits to be published.
  abbrev pub IsFairTurn : Turn → HandOver L → Type 0
  IsFairTurn (store_one now m) s = Unit
  IsFairTurn publish s = Unit
  IsFairTurn (one_round fits) s =
      s.is_live ≡ false
      → (do_catch_up ldb codec (record { store = s.store; fits = fits }) s.last_at).sent ≡ []
      → s.pending ≡ none

  -- Each round that is taken is such a round.
  unfoldable pub IsFair : List Turn → HandOver L → Type 0
  IsFair [] s = Unit
  IsFair (t ∷ ts) s = IsFairTurn t s × IfSome (IsFair ts) (take_turn ldb codec c t s)

module _ {L : Type 0} (ldb : LevelDb L) (codec : Codec RfMessage) (codes : IsCodec codec)
    (entries : L → Dict (List ℕ) (List ℕ)) (leveldb : IsLevelDb ldb entries) (c start : ℕ) where
  -- Where a turn leads, with messages that are still to come.
  pub record Led (t : Turn) (later : List RfMessage) (s : HandOver L) : Type 0 where
    pub then : HandOver L
    pub taken : take_turn ldb codec c t s ≡ some then
    pub in_step : IsInStep codec entries c start then
    pub still_ordered : IsOrdered (then.stored ++ later)

  pub store_one-Led :
      (now : ℤ) (m : RfMessage) (later : List RfMessage) (s : HandOver L)
      → IsInStep codec entries c start s
      → IsIncoming start (stamped now m)
      → IsOrdered (s.stored ++ (stamped now m ∷ later))
      → Led (store_one now m) later s
  unfolding take_turn
  store_one-Led now m later s v comes ord = elim (Option-cases s.pending) [
    | inr (p, wait) ↦ record {
      then = s;
      taken = rw wait refl;
      in_step = v;
      still_ordered = IsOrdered-drop_one s.stored later (stamped now m) ord;
    }
    | inl free ↦ elim (put_rf_message-cases ldb codec now s.store m) [
      | inl (l', done) ↦
          let split = append_assoc s.stored (stamped now m ∷ []) later in
          let ord' : IsOrdered ((s.stored ++ (stamped now m ∷ [])) ++ later) = rw split ord in
          let log =
            (put_rf_message-IsLog ldb codec codes entries now s.store l' m (some (stamped now m))
              s.stored leveldb comes.0 v.held done).0 in
          record {
            then = record s {
              store = l';
              stored = s.stored ++ (stamped now m ∷ []);
              pending = some (stamped now m);
            };
            taken = rw (free, done) refl;
            in_step =
                stored-IsInStep codec entries c start s l' (stamped now m) v free comes
                  (IsOrdered-left _ later ord') log;
            still_ordered = ord';
          }
      | inr (e, failed) ↦ record {
        then = s;
        taken = rw (free, failed) refl;
        in_step = v;
        still_ordered = IsOrdered-drop_one s.stored later (stamped now m) ord;
      }
    ]
  ]

  pub publish-Led :
      (later : List RfMessage) (s : HandOver L)
      → IsInStep codec entries c start s
      → IsOrdered (s.stored ++ later)
      → Led publish later s
  unfolding take_turn
  publish-Led later s v ord = elim (Option-cases s.pending) [
    | inl free ↦ record { then = s; taken = rw free refl; in_step = v; still_ordered = ord }
    | inr (m, wait) ↦
        let (s', done, same, v') = published-IsInStep codec entries c start s m v wait in
        record { then = s'; taken = rw wait done; in_step = v'; still_ordered = rw same ord }
  ]

  round_done-taken :
      (s : HandOver L) (h : CatchUp RfMessage)
      → IsListed c false s.last_at s.subs s.starts
      → (subs : List ℕ) × (starts : List ℤ) × (round_done c s h
          ≡ some (after_round s h subs starts))
        × IsListed c h.locked (next h.last_at) subs starts
  round_done-taken s h (gone, e) = elim (Bool-cases h.locked) [
    | inl kept ↦
        let subs = s.subs ++ (c ∷ []) in
        let starts = s.starts ++ (next h.last_at ∷ []) in
        let same : length subs == length starts ≡ true =
          ground (
            arith,
            length-append s.subs (c ∷ []),
            length-append s.starts (next h.last_at ∷ []),
            e,
          ) in
        (subs, starts, rw (kept, same) refl, rw kept (s.subs, s.starts, gone, e, refl, refl))
    | inr lost ↦ (s.subs, s.starts, rw lost refl, rw lost (gone, e))
  ]

  pub one_round-taken :
      (fits : ℕ → Bool) (s : HandOver L) (v : IsInStep codec entries c start s)
      → s.is_live ≡ false
      → let h = do_catch_up ldb codec (record { store = s.store; fits = fits }) (pos v.from) in
        (subs : List ℕ) × (starts : List ℤ) × (take_turn ldb codec c (one_round fits) s
          ≡ some (after_round s h subs starts))
        × IsListed c h.locked (next h.last_at) subs starts
  unfolding take_turn
  one_round-taken fits s v catching =
      let r : Round L = record { store = s.store; fits = fits } in
      let h = do_catch_up ldb codec r (pos v.from) in
      let (subs, starts, done, listed) = round_done-taken s h (rw catching at v.listed) in
      (
        subs,
        starts,
        ap (λ b. when_catching ldb codec c b fits s) catching
            ∙ ap (λ at. round_done c s (do_catch_up ldb codec r at)) v.starts_at
            ∙ done,
        listed,
      )

  pub one_round-Led :
      (fits : ℕ → Bool) (later : List RfMessage) (s : HandOver L)
      → IsInStep codec entries c start s
      → IsFairTurn ldb codec c (one_round fits) s
      → IsOrdered (s.stored ++ later)
      → Led (one_round fits) later s
  one_round-Led fits later s v fair ord = elim (Bool-cases s.is_live) [
    | inl live ↦ record {
      then = s;
      taken = unfold take_turn in rw live refl;
      in_step = v;
      still_ordered = ord;
    }
    | inr catching ↦
        let r : Round L = record { store = s.store; fits = fits } in
        let h = do_catch_up ldb codec r (pos v.from) in
        let sent =
          do_catch_up-sent ldb codec codes entries r v.from s.stored leveldb v.in_width v.held in
        let last =
          do_catch_up-last_at ldb codec codes entries r v.from s.stored leveldb v.in_width v.held in
        let lost =
          do_catch_up-some ldb codec codes entries r v.from s.stored leveldb v.in_width v.held in
        let none_waits = (rw v.starts_at at fair) catching in
        let (subs, starts, done, listed) = one_round-taken fits s v catching in
        record {
          then = after_round s h subs starts;
          taken = done;
          in_step =
              round-IsInStep codec entries c start s h subs starts v catching sent last lost
                (λ nothing. none_waits (sent ∙ nothing)) listed;
          still_ordered = ord;
        }
  ]
