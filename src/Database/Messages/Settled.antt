-- ===== src/Database/Messages/Settled.antt =====
-- hub/database/rf_subscribe.go and rfmessage.go: once the processor has published what it has stored, a
-- round for which the channel has room ends the catch-up.
use widuino.Base.{ℕ, List, [], ◌∷◌, ◌++◌, Option, none, some, true}
use widuino.Base.{◌≡◌, refl, sym, ap, ◌∙◌, inl, inr, Bool-cases, append-nil}
use widuino.Base.Dict.{Dict}
use mathlib.Core.Option.{some-injective}
use widuino.Gears.{RfMessage}
use widuino.Database.{LevelDb, Codec, IsLevelDb}
use widuino.Database.Subscribers.{publish_to}
use widuino.Database.Messages.Log.{log_range, IsCodec}
use widuino.Database.Messages.CatchUp.{sent_at, do_catch_up-locked}
use widuino.Database.Messages.Order.{IsOrdered}
use widuino.Database.Messages.HandOver.{
  HandOver, publish, one_round, take_turn, take_turns, on_channel, publish_done, when_pending,
  when_catching, ◌>>=◌,
}
use widuino.Database.Messages.LeftOver.{left_over}
use widuino.Database.Messages.InStep.{IsInStep}
use widuino.Database.Messages.Turns.{publish-Led, one_round-Led, one_round-taken}

module _ {L : Type 0} (c : ℕ) where
  published-clears :
      (s s' : HandOver L) (out : Option (List (ℕ × RfMessage)))
      → publish_done c s out ≡ some s'
      → (s'.pending ≡ none) × (s'.stored ≡ s.stored)
  published-clears s s' none e = cc
  published-clears s s' (some out) e =
      let same : record s { pending = none; sent = s.sent ++ on_channel c out } ≡ s' = cc e in
      (ap (λ x. x.pending) (sym same), ap (λ x. x.stored) (sym same))

  when_pending-clears :
      (p : Option RfMessage) (s s' : HandOver L)
      → s.pending ≡ p
      → when_pending c p s ≡ some s'
      → (s'.pending ≡ none) × (s'.stored ≡ s.stored)
  when_pending-clears none s s' wait e =
      let same : s ≡ s' = cc e in
      (ap (λ x. x.pending) (sym same) ∙ wait, ap (λ x. x.stored) (sym same))
  when_pending-clears (some m) s s' wait e =
      published-clears s s' (publish_to sent_at m s.subs s.starts) e

module _ {L : Type 0} (ldb : LevelDb L) (codec : Codec RfMessage) (codes : IsCodec codec)
    (entries : L → Dict (List ℕ) (List ℕ)) (leveldb : IsLevelDb ldb entries) (c start : ℕ) where
  one_round-goes_live :
      (s s' : HandOver L)
      → IsInStep codec entries c start s
      → take_turn ldb codec c (one_round (λ n. true)) s ≡ some s'
      → (s'.is_live ≡ true) × (s'.pending ≡ s.pending) × (s'.stored ≡ s.stored)
  one_round-goes_live s s' v e = elim (Bool-cases s.is_live) [
    | inl live ↦
        let stays : take_turn ldb codec c (one_round (λ n. true)) s ≡ some s =
          unfold take_turn in ap (λ b. when_catching ldb codec c b (λ n. true) s) live in
        let same : s ≡ s' = cc (stays, e) in
        (
          ap (λ x. x.is_live) (sym same) ∙ live,
          ap (λ x. x.pending) (sym same),
          ap (λ x. x.stored) (sym same),
        )
    | inr catching ↦
        let (subs, starts, done, listed) =
          one_round-taken ldb codec codes entries leveldb c start (λ n. true) s v catching in
        let locked =
          do_catch_up-locked ldb codec codes entries (record { store = s.store; fits = λ n. true })
            v.from s.stored leveldb v.in_width v.held (λ n. refl) in
        let same = some-injective _ _ (sym done ∙ e) in
        (
          ap (λ x. x.is_live) (sym same) ∙ locked,
          ap (λ x. x.pending) (sym same),
          ap (λ x. x.stored) (sym same),
        )
  ]

  -- Once nothing waits to be published, a round with room leaves nothing over.
  pub publish-one_round :
      (s : HandOver L)
      → IsInStep codec entries c start s
      → (s' : HandOver L) × (take_turns ldb codec c (publish ∷ one_round (λ n. true) ∷ []) s
          ≡ some s')
        × (s'.is_live ≡ true)
        × (s'.stored ≡ s.stored)
        × (s'.sent ≡ log_range start 0 s.stored)
  unfolding take_turns
  publish-one_round s v =
      let ord : IsOrdered (s.stored ++ []) = rw (append-nil s.stored) v.ordered in
      let led = publish-Led ldb codec codes entries leveldb c start [] s v ord in
      let t = led.then in
      let (free, kept) = when_pending-clears c s.pending s t refl (unfold take_turn in led.taken) in
      let round =
        one_round-Led ldb codec codes entries leveldb c start (λ n. true) [] t led.in_step
          (λ catching nothing. free) led.still_ordered in
      let s' = round.then in
      let (live, still_free, still_kept) = one_round-goes_live t s' led.in_step round.taken in
      let nothing : left_over s' ≡ [] = rw (live, still_free, free) refl in
      (
        s',
        ap (λ o. o >>= take_turns ldb codec c (one_round (λ n. true) ∷ [])) led.taken
            ∙ ap (λ o. o >>= take_turns ldb codec c []) round.taken,
        live,
        still_kept ∙ kept,
        sym (append-nil s'.sent)
            ∙ ap (λ r. s'.sent ++ r) (sym nothing)
            ∙ round.in_step.complete
            ∙ ap (log_range start 0) (still_kept ∙ kept),
      )
