-- ===== src/HubMain/FanOut.antt =====
-- hub/main.go: every processor gets every message, in order, however the goroutines run.
use widuino.Base.{
  ◌≤◌, List, [], ◌∷◌, ◌++◌, map, length, length-append, append_assoc, append-nil, Option, none,
  some, Bool, All, All-append,
}
use widuino.Base.{◌≡◌, refl, sym, ap, ◌∙◌, arith, map-append}
use widuino.HubMain.{
  Process, log_processor, db_processor, Processor, channel_capacity, Hub, started, Takes, first,
  returned, later, Step, arrive, receive, forward, forwarded, told_takes, untold_takes, Reach, here,
  then,
}

module _ {M : Type 0} where
  abbrev pub pending : Option M → List M
  pending none = []
  pending (some m) = m ∷ []

  -- What a processor is done with, is at work on and has in its channel, and behind that `ahead`, is
  -- `received`; and its channel is never over its capacity.
  pub record UpTo (received ahead : List M) (p : Processor M) : Type 0 where
    pub all : (p.handled ++ (pending p.busy ++ p.queue)) ++ ahead ≡ received
    pub bounded : length p.queue ≤ channel_capacity

  -- Only while a message is forwarded.
  abbrev pub Told : Option M → List (Processor M) → Type 0
  Told none ps = ps ≡ []
  Told (some m) ps = Unit

  pub record IsInStep (s : Hub M) : Type 0 where
    pub registered :
        map (λ (p : Processor M). p.process) (s.told ++ s.untold)
        ≡ log_processor ∷ db_processor ∷ []
    pub of_told : All (UpTo s.received s.recv) s.told
    pub of_untold : All (UpTo s.received (pending s.current ++ s.recv)) s.untold
    pub told_only : Told s.current s.told
    pub room : length s.recv ≤ channel_capacity

  started-IsInStep : IsInStep started
  started-IsInStep = record {
    registered = refl;
    of_told = tt;
    of_untold = (
      record { all = refl; bounded = omega arith },
      (record { all = refl; bounded = omega arith }, tt),
    );
    told_only = refl;
    room = omega arith;
  }

  UpTo-snoc :
      (received ahead : List M) (m : M) (ps : List (Processor M))
      → All (UpTo received ahead) ps
      → All (UpTo (received ++ (m ∷ [])) (ahead ++ (m ∷ []))) ps
  UpTo-snoc received ahead m [] h = tt
  UpTo-snoc received ahead m (p ∷ ps) (h, hs) = (
    record {
      all =
          sym (append_assoc (p.handled ++ (pending p.busy ++ p.queue)) ahead (m ∷ []))
          ∙ ap (λ l. l ++ (m ∷ [])) h.all;
      bounded = h.bounded;
    },
    UpTo-snoc received ahead m ps hs,
  )

module _ {M : Type 0} (returns : Process → List M → M → Bool) where
  Takes-UpTo :
      (received ahead : List M) {ps qs : List (Processor M)}
      → Takes returns ps qs
      → All (UpTo received ahead) ps
      → All (UpTo received ahead) qs
  Takes-UpTo received ahead (first p ps m q free e) (h, hs) = (
    record { all = (rw (free, e) at h.all); bounded = omega (arith, h.bounded, (ap length e)) },
    hs,
  )
  Takes-UpTo received ahead (returned p ps m at_work back) (h, hs) = (
    record {
      all = ap (λ l. l ++ ahead) (append_assoc p.handled (m ∷ []) p.queue) ∙ (rw at_work at h.all);
      bounded = h.bounded;
    },
    hs,
  )
  Takes-UpTo received ahead (later p t) (h, hs) = (h, Takes-UpTo received ahead t hs)

  Takes-process :
      {ps qs : List (Processor M)}
      → Takes returns ps qs
      → map (λ (p : Processor M). p.process) qs ≡ map (λ (p : Processor M). p.process) ps
  Takes-process (first p ps m q free e) = refl
  Takes-process (returned p ps m at_work back) = refl
  Takes-process (later p t) = ap (◌∷◌ p.process) (Takes-process t)

  Takes-Told :
      (c : Option M) {ps qs : List (Processor M)} → Takes returns ps qs → Told c ps → Told c qs
  Takes-Told none (first p ps m q free e) empty = absurd (cc empty)
  Takes-Told none (returned p ps m at_work back) empty = absurd (cc empty)
  Takes-Told none (later p t) empty = absurd (cc empty)
  Takes-Told (some m) t h = tt

  Step-IsInStep : {s t : Hub M} → Step returns s t → IsInStep s → IsInStep t
  Step-IsInStep {s} (arrive m room) h = record {
    registered = h.registered;
    of_told = UpTo-snoc s.received s.recv m s.told h.of_told;
    of_untold =
        let l = UpTo-snoc s.received (pending s.current ++ s.recv) m s.untold h.of_untold in
        rw append_assoc at l;
    told_only = h.told_only;
    room = omega (arith, room, length-append s.recv (m ∷ []));
  }
  Step-IsInStep {s} (receive m r e er) h =
      let empty : s.told ≡ [] = (rw e at h.told_only) in
      record {
        registered = h.registered;
        of_told = rw empty tt;
        of_untold = (rw (e, er) at h.of_untold);
        told_only = tt;
        room = omega (arith, h.room, (ap length er));
      }
  Step-IsInStep {s} (forward m p ps e eu room) h =
      let (now, rest) = (rw (e, eu) at h.of_untold) in
      let p' = record p { queue = p.queue ++ (m ∷ []) } in
      let k : Processor M → Process = λ q. q.process in
      record {
        registered =
            ap (map k) (append_assoc s.told (p' ∷ []) ps)
            ∙ map-append k s.told (p' ∷ ps)
            ∙ sym (map-append k s.told (p ∷ ps))
            ∙ (rw eu at h.registered);
        of_told = All-append (UpTo s.received s.recv) s.told (p' ∷ []) h.of_told (
          record {
            all =
                ap (λ l. l ++ s.recv)
                  (ap (λ l. p.handled ++ l) (sym (append_assoc (pending p.busy) p.queue (m ∷ [])))
                    ∙ sym (append_assoc p.handled (pending p.busy ++ p.queue) (m ∷ [])))
                ∙ append_assoc (p.handled ++ (pending p.busy ++ p.queue)) (m ∷ []) s.recv
                ∙ now.all;
            bounded = omega (arith, room, length-append p.queue (m ∷ []));
          },
          tt,
        );
        of_untold = rw e rest;
        told_only = rw e tt;
        room = h.room;
      }
  Step-IsInStep {s} (forwarded m e eu) h = record {
    registered =
        ap (map (λ (p : Processor M). p.process)) (sym (append-nil s.told))
        ∙ (rw eu at h.registered);
    of_told = tt;
    of_untold = h.of_told;
    told_only = refl;
    room = h.room;
  }
  Step-IsInStep {s} (told_takes {ps} t) h = record {
    registered =
        map-append (λ (p : Processor M). p.process) ps s.untold
        ∙ ap (λ l. l ++ map (λ (p : Processor M). p.process) s.untold) (Takes-process t)
        ∙ sym (map-append (λ (p : Processor M). p.process) s.told s.untold)
        ∙ h.registered;
    of_told = Takes-UpTo s.received s.recv t h.of_told;
    of_untold = h.of_untold;
    told_only = Takes-Told s.current t h.told_only;
    room = h.room;
  }
  Step-IsInStep {s} (untold_takes {ps} t) h = record {
    registered =
        map-append (λ (p : Processor M). p.process) s.told ps
        ∙ ap (λ l. map (λ (p : Processor M). p.process) s.told ++ l) (Takes-process t)
        ∙ sym (map-append (λ (p : Processor M). p.process) s.told s.untold)
        ∙ h.registered;
    of_told = h.of_told;
    of_untold = Takes-UpTo s.received (pending s.current ++ s.recv) t h.of_untold;
    told_only = h.told_only;
    room = h.room;
  }

  -- In whatever order the goroutines run from the start, and whichever messages a processor never comes
  -- back from: the processors are LogProcessor and the database's; what a processor is done with, the
  -- message that it is at work on and what is in its channel are, in order and once each, the first of
  -- the messages that have been received; and all that is left for it is what is in the gateway's
  -- channel and the one message that is being forwarded, if it has not got it yet. The channels never
  -- hold more than 10 messages.
  pub hub-IsInStep : (t : Hub M) → Reach returns started t → IsInStep t
  hub-IsInStep t here = started-IsInStep
  hub-IsInStep t (then {t = s} r step) = Step-IsInStep step (hub-IsInStep s r)
