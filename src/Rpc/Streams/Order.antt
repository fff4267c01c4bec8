-- ===== src/Rpc/Streams/Order.antt =====
-- A subscription loses, repeats and reorders nothing before its end, in whatever order the goroutines
-- run.
use widuino.Base.{◌≤◌, List, [], ◌∷◌, ◌++◌, length, length-append, append_assoc, Bool, true, false}
use widuino.Base.{◌≡◌, refl, sym, ap, ◌∙◌, arith}
use widuino.Rpc.Streams.{
  Copier, copying, sending, unsubscribing, draining, returned, Receiver, receiving, holding, ended,
}
use widuino.Rpc.Streams.{
  Stream, capacity, begin, Publish, lock, send, Copy, take, sent, failed, unsubscribe, drain,
  drained, end_of_input, Receive, received, not_received, handed_on, publish, copy, receive, Reach,
  here, then,
}

module _ {M : Type 0} where
  abbrev pub held : Receiver M → List M
  held receiving = []
  held (holding m) = m ∷ []
  held ended = []

  -- What has been delivered or is on its way to the client, in order.
  abbrev pub carried : Stream M → List M
  carried s = s.delivered ++ (held s.receiver ++ s.pipe)

  -- The hub's goroutine has not met an error.
  abbrev pub is_copying : Copier M → Bool
  is_copying copying = true
  is_copying (sending m) = true
  is_copying c = false

  -- While the hub copies, what is left is what it is sending and what is still in its channel.
  abbrev pub Remains : Copier M → List M → List M → Type 0
  Remains copying left queue = left ≡ queue
  Remains (sending m) left queue = left ≡ m ∷ queue
  Remains c left queue = Unit

  -- What has been published is what is carried and then `left`; the channel is never over its
  -- capacity.
  pub record IsFaithful (s : Stream M) : Type 0 where
    pub left : List M
    pub all : carried s ++ left ≡ s.published
    pub remains : Remains s.copier left s.queue
    pub bounded : length s.queue ≤ capacity

  begin-IsFaithful : IsFaithful begin
  begin-IsFaithful = record { left = []; all = refl; remains = refl; bounded = omega arith }

  snoc : (xs ys : List M) (m : M) → (xs ++ ys) ++ (m ∷ []) ≡ xs ++ (ys ++ (m ∷ []))
  snoc xs ys m = append_assoc xs ys (m ∷ [])

  Remains-snoc :
      (c : Copier M) (left queue : List M) (m : M)
      → Remains c left queue
      → Remains c (left ++ (m ∷ [])) (queue ++ (m ∷ []))
  Remains-snoc copying left queue m e = ap (λ l. l ++ (m ∷ [])) e
  Remains-snoc (sending k) left queue m e = ap (λ l. l ++ (m ∷ [])) e
  Remains-snoc unsubscribing left queue m e = tt
  Remains-snoc draining left queue m e = tt
  Remains-snoc returned left queue m e = tt

  Publish-IsFaithful : {s t : Stream M} → Publish s t → IsFaithful s → IsFaithful t
  Publish-IsFaithful {s} (lock m e v) h = record {
    left = h.left;
    all = h.all;
    remains = h.remains;
    bounded = h.bounded;
  }
  Publish-IsFaithful {s} (send m e room) h = record {
    left = h.left ++ (m ∷ []);
    all = sym (snoc (carried s) h.left m) ∙ ap (λ l. l ++ (m ∷ [])) h.all;
    remains = Remains-snoc s.copier h.left s.queue m h.remains;
    bounded = omega (arith, room, length-append s.queue (m ∷ []));
  }

  Copy-IsFaithful : {s t : Stream M} → Copy s t → IsFaithful s → IsFaithful t
  Copy-IsFaithful {s} (take m q e eq) h =
      let at : h.left ≡ s.queue = (rw e at h.remains) in
      record {
        left = h.left;
        all = h.all;
        remains = at ∙ eq;
        bounded = omega (arith, h.bounded, (ap length eq));
      }
  Copy-IsFaithful {s} (sent m e) h =
      let at : h.left ≡ m ∷ s.queue = (rw e at h.remains) in
      record {
        left = s.queue;
        all =
            ap (λ l. (s.delivered ++ l) ++ s.queue) (sym (snoc (held s.receiver) s.pipe m))
            ∙ ap (λ l. l ++ s.queue) (sym (snoc s.delivered (held s.receiver ++ s.pipe) m))
            ∙ append_assoc (carried s) (m ∷ []) s.queue
            ∙ ap (λ l. carried s ++ l) (sym at)
            ∙ h.all;
        remains = refl;
        bounded = h.bounded;
      }
  Copy-IsFaithful {s} (failed m e) h = record {
    left = h.left;
    all = h.all;
    remains = tt;
    bounded = h.bounded;
  }
  Copy-IsFaithful {s} (unsubscribe e free) h = record {
    left = h.left;
    all = h.all;
    remains = tt;
    bounded = h.bounded;
  }
  Copy-IsFaithful {s} (drain m q e eq) h = record {
    left = h.left;
    all = h.all;
    remains = rw e tt;
    bounded = omega (arith, h.bounded, (ap length eq));
  }
  Copy-IsFaithful {s} (drained e eq v) h = record {
    left = h.left;
    all = h.all;
    remains = tt;
    bounded = h.bounded;
  }
  Copy-IsFaithful {s} (end_of_input e eq v) h = record {
    left = h.left;
    all = h.all;
    remains = tt;
    bounded = h.bounded;
  }

  Receive-IsFaithful : {s t : Stream M} → Receive s t → IsFaithful s → IsFaithful t
  Receive-IsFaithful {s} (received m p e eq) h =
      let same : held s.receiver ++ s.pipe ≡ m ∷ p = rw (e, eq) refl in
      record {
        left = h.left;
        all = ap (λ l. (s.delivered ++ l) ++ h.left) (sym same) ∙ h.all;
        remains = h.remains;
        bounded = h.bounded;
      }
  Receive-IsFaithful {s} (not_received e) h =
      let same : held s.receiver ++ s.pipe ≡ s.pipe = rw e refl in
      record {
        left = h.left;
        all = ap (λ l. (s.delivered ++ l) ++ h.left) (sym same) ∙ h.all;
        remains = h.remains;
        bounded = h.bounded;
      }
  Receive-IsFaithful {s} (handed_on m e) h =
      let same : held s.receiver ++ s.pipe ≡ m ∷ s.pipe = rw e refl in
      record {
        left = h.left;
        all =
            ap (λ l. l ++ h.left) (append_assoc s.delivered (m ∷ []) s.pipe)
            ∙ ap (λ l. (s.delivered ++ l) ++ h.left) (sym same)
            ∙ h.all;
        remains = h.remains;
        bounded = h.bounded;
      }

  Reach-IsFaithful : {s t : Stream M} → Reach s t → IsFaithful s → IsFaithful t
  Reach-IsFaithful here h = h
  Reach-IsFaithful (then r (publish p)) h = Publish-IsFaithful p (Reach-IsFaithful r h)
  Reach-IsFaithful (then r (copy c)) h = Copy-IsFaithful c (Reach-IsFaithful r h)
  Reach-IsFaithful (then r (receive c)) h = Receive-IsFaithful c (Reach-IsFaithful r h)

  -- In whatever order the goroutines run from the start of a subscription, and whether the connection
  -- fails or not: the client has been delivered, in order and once, the first of the messages
  -- published to it, and those behind them are on their way in order. Until the hub's goroutine meets
  -- an error, what remains is what it is sending and what its channel holds, 100 messages at most.
  pub stream-IsFaithful : (t : Stream M) → Reach begin t → IsFaithful t
  stream-IsFaithful t r = Reach-IsFaithful r begin-IsFaithful
