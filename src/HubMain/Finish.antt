-- ===== src/HubMain/Finish.antt =====
-- hub/main.go: from any state the goroutines can bring every message to every processor, if the
-- processors come back from their messages.
use widuino.Base.{List, [], ◌∷◌, ◌++◌, length, append-nil, Option, none, some, Bool, true, All}
use widuino.Base.{◌≡◌, refl, sym, ap, ◌∙◌, arith, inl, inr, Option-cases}
use widuino.HubMain.{
  Process, Processor, Hub, started, Takes, first, returned, later, receive, forward, forwarded,
  told_takes, untold_takes, Reach, here, then,
}
use widuino.HubMain.FanOut.{UpTo, hub-IsInStep}

abbrev pub AlwaysReturns : {M : Type 0} → (Process → List M → M → Bool) → Type 0
AlwaysReturns {M} returns = (f : Process) (done : List M) (m : M) → returns f done m ≡ true

abbrev IsDrained : {M : Type 0} → Processor M → Type 0
IsDrained p = (p.queue ≡ []) × (p.busy ≡ none)

module _ {M : Type 0} (returns : Process → List M → M → Bool) (back : AlwaysReturns returns) where
  Reach-trans : {s t u : Hub M} → Reach returns s t → Reach returns t u → Reach returns s u
  Reach-trans r here = r
  Reach-trans r (then q step) = then (Reach-trans r q) step

  -- Processors that take messages, one after the other.
  data Runs (ps : List (Processor M)) : List (Processor M) → Type 0 where
    stop : Runs ps ps
    more : {qs rs : List (Processor M)} → Runs ps qs → Takes returns qs rs → Runs ps rs

  Runs-trans : {ps qs rs : List (Processor M)} → Runs ps qs → Runs qs rs → Runs ps rs
  Runs-trans r stop = r
  Runs-trans r (more q t) = more (Runs-trans r q) t

  Runs-later : (p : Processor M) {ps qs : List (Processor M)} → Runs ps qs → Runs (p ∷ ps) (p ∷ qs)
  Runs-later p stop = stop
  Runs-later p (more r t) = more (Runs-later p r) (later p t)

  empty_free :
      (q : List M) (p : Processor M) (ps : List (Processor M))
      → p.busy ≡ none
      → p.queue ≡ q
      → (p' : Processor M) × Runs (p ∷ ps) (p' ∷ ps) × IsDrained p'
  empty_free [] p ps free e = (p, stop, (e, free))
  empty_free (m ∷ q) p ps free e =
      let at_work = record p { queue = q; busy = some m } in
      let next = record p { queue = q; busy = none; handled = p.handled ++ (m ∷ []) } in
      let (p', r, done) = empty_free q next ps refl refl in
      let one =
        more (more stop (first p ps m q free e))
          (returned at_work ps m refl (back p.process p.handled m)) in
      (p', Runs-trans one r, done)

  empty_first :
      (p : Processor M) (ps : List (Processor M))
      → (p' : Processor M) × Runs (p ∷ ps) (p' ∷ ps) × IsDrained p'
  empty_first p ps = elim (Option-cases p.busy) [
    | inl free ↦ empty_free p.queue p ps free refl
    | inr (m, at_work) ↦
        let next = record p { busy = none; handled = p.handled ++ (m ∷ []) } in
        let (p', r, done) = empty_free p.queue next ps refl refl in
        let one = more stop (returned p ps m at_work (back p.process p.handled m)) in
        (p', Runs-trans one r, done)
  ]

  empty_queues :
      (ps : List (Processor M)) → (qs : List (Processor M)) × Runs ps qs × All IsDrained qs
  empty_queues [] = ([], stop, tt)
  empty_queues (p ∷ ps) =
      let (p', r, done) = empty_first p ps in
      let (qs, r', rest) = empty_queues ps in
      (p' ∷ qs, Runs-trans r (Runs-later p' r'), (done, rest))

  told-Runs :
      (s : Hub M) {ps qs : List (Processor M)}
      → Runs ps qs
      → Reach returns (record s { told = ps }) (record s { told = qs })
  told-Runs s stop = here
  told-Runs s (more r t) = then (told-Runs s r) (told_takes t)

  untold-Runs :
      (s : Hub M) {ps qs : List (Processor M)}
      → Runs ps qs
      → Reach returns (record s { untold = ps }) (record s { untold = qs })
  untold-Runs s stop = here
  untold-Runs s (more r t) = then (untold-Runs s r) (untold_takes t)

  -- A later state with the same messages received, and empty channels of the processors.
  record Quiet (s : Hub M) (left : List M) (c : Option M) : Type 0 where
    to : Hub M
    way : Reach returns s to
    same : to.received ≡ s.received
    recv : to.recv ≡ left
    current : to.current ≡ c
    empty : All IsDrained to.untold

  quiet : (s : Hub M) → Quiet s s.recv s.current
  quiet s =
      let (us, r', e') = empty_queues s.untold in
      record {
        to = record s { untold = us };
        way = untold-Runs s r';
        same = refl;
        recv = refl;
        current = refl;
        empty = e';
      }

  -- The message goes to all that are left, and then their channels are emptied.
  tell_all :
      (us : List (Processor M)) (s : Hub M) (m : M)
      → s.current ≡ some m
      → s.untold ≡ us
      → All IsDrained us
      → Quiet s s.recv none
  tell_all [] s m e eu h =
      let q = quiet (record s { current = none; told = []; untold = s.told }) in
      record {
        to = q.to;
        way = Reach-trans (then here (forwarded m e eu)) q.way;
        same = q.same;
        recv = q.recv;
        current = q.current;
        empty = q.empty;
      }
  tell_all (p ∷ us) s m e eu (h, hs) =
      let q =
        tell_all us
          (record s {
            told = s.told ++ (record p { queue = p.queue ++ (m ∷ []) } ∷ []);
            untold = us;
          })
          m e refl hs in
      record {
        to = q.to;
        way = Reach-trans (then here (forward m p us e eu (omega (arith, (ap length h.0))))) q.way;
        same = q.same;
        recv = q.recv;
        current = q.current;
        empty = q.empty;
      }

  -- The messages that are still in the gateway's channel.
  receive_rest :
      (r : List M) (s : Hub M)
      → s.recv ≡ r
      → s.current ≡ none
      → All IsDrained s.untold
      → Quiet s [] none
  receive_rest [] s er e h = record {
    to = s;
    way = here;
    same = refl;
    recv = er;
    current = e;
    empty = h;
  }
  receive_rest (m ∷ r) s er e h =
      let q = tell_all s.untold (record s { recv = r; current = some m }) m refl refl h in
      let rest = receive_rest r q.to q.recv q.current q.empty in
      record {
        to = rest.to;
        way = Reach-trans (Reach-trans (then here (receive m r e er)) q.way) rest.way;
        same = rest.same ∙ q.same;
        recv = rest.recv;
        current = rest.current;
        empty = rest.empty;
      }

  finish : (c : Option M) (s : Hub M) → s.current ≡ c → Quiet s [] none
  finish none s e =
      let q = quiet s in
      let rest = receive_rest q.to.recv q.to refl (q.current ∙ e) q.empty in
      record {
        to = rest.to;
        way = Reach-trans q.way rest.way;
        same = rest.same ∙ q.same;
        recv = rest.recv;
        current = rest.current;
        empty = rest.empty;
      }
  finish (some m) s e =
      let q = quiet s in
      let told = tell_all q.to.untold q.to m (q.current ∙ e) refl q.empty in
      let rest = receive_rest told.to.recv told.to refl told.current told.empty in
      record {
        to = rest.to;
        way = Reach-trans q.way (Reach-trans told.way rest.way);
        same = rest.same ∙ told.same ∙ q.same;
        recv = rest.recv;
        current = rest.current;
        empty = rest.empty;
      }

  of_empty :
      (received : List M) (ps : List (Processor M))
      → All (UpTo received []) ps
      → All IsDrained ps
      → All (λ (p : Processor M). p.handled ≡ received) ps
  of_empty received [] h e = tt
  of_empty received (p ∷ ps) (h, hs) (e, es) =
      let all : (p.handled ++ []) ++ [] ≡ received = (rw (e.0, e.1) at h.all) in
      (
        sym (append-nil p.handled) ∙ sym (append-nil (p.handled ++ [])) ∙ all,
        of_empty received ps hs es,
      )

  -- If the processors come back from every message: from any state of the hub that can be reached, the
  -- goroutines can run on, with no more messages coming in, until every processor has handled exactly
  -- the messages that had been received, in order.
  pub hub_can_finish :
      (s : Hub M)
      → Reach returns started s
      → (t : Hub M) × Reach returns s t
        × (t.received ≡ s.received)
        × All (λ (p : Processor M). p.handled ≡ s.received) (t.told ++ t.untold)
  hub_can_finish s r =
      let q = finish s.current s refl in
      let t = q.to in
      let inv = hub-IsInStep returns t (Reach-trans r q.way) in
      let alone : t.told ≡ [] = (rw q.current at inv.told_only) in
      let up_to : All (UpTo t.received []) t.untold = (rw (q.current, q.recv) at inv.of_untold) in
      (t, q.way, q.same, rw alone (rw q.same at (of_empty t.received t.untold up_to q.empty)))
