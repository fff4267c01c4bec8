-- ===== src/Rpc/Streams/Deadlock.antt =====
-- A subscription whose connection fails while its channel is full: RFUnsubscribe waits for the lock,
-- and RFPublish, which has it, for room in the channel.
use widuino.Base.{ℕ, zero, suc, ◌≤◌, [], ◌∷◌, length, length-append, true}
use widuino.Base.{◌≡◌, refl, arith}
use widuino.Rpc.Streams.{
  outside, locked, sending, unsubscribing, Stream, capacity, begin, Publish, lock, send, Copy, take,
  sent, failed, unsubscribe, drain, drained, end_of_input, Receive, received, not_received,
  handed_on, publish, copy, receive, Reach, here, then,
}

module _ {M : Type 0} where
  pub record IsDeadlocked (m : M) (s : Stream M) : Type 0 where
    pub waits : s.copier ≡ unsubscribing
    pub has_lock : s.publisher ≡ locked m
    pub full : capacity ≤ length s.queue

  Publish-IsDeadlocked :
      (m : M) {s t : Stream M} → Publish s t → IsDeadlocked m s → IsDeadlocked m t
  Publish-IsDeadlocked m (lock k e v) h = absurd (cc (e, h.has_lock))
  Publish-IsDeadlocked m (send k e room) h = absurd (omega (arith, room, h.full))

  Copy-IsDeadlocked : (m : M) {s t : Stream M} → Copy s t → IsDeadlocked m s → IsDeadlocked m t
  Copy-IsDeadlocked m (take k q e eq) h = absurd (cc (e, h.waits))
  Copy-IsDeadlocked m (sent k e) h = absurd (cc (e, h.waits))
  Copy-IsDeadlocked m (failed k e) h = absurd (cc (e, h.waits))
  Copy-IsDeadlocked m (unsubscribe e free) h = absurd (cc (free, h.has_lock))
  Copy-IsDeadlocked m (drain k q e eq) h = absurd (cc (e, h.waits))
  Copy-IsDeadlocked m (drained e eq v) h = absurd (cc (e, h.waits))
  Copy-IsDeadlocked m (end_of_input e eq v) h = absurd (cc (e, h.waits))

  Receive-IsDeadlocked :
      (m : M) {s t : Stream M} → Receive s t → IsDeadlocked m s → IsDeadlocked m t
  Receive-IsDeadlocked m (received k p e eq) h = record {
    waits = h.waits;
    has_lock = h.has_lock;
    full = h.full;
  }
  Receive-IsDeadlocked m (not_received e) h = record {
    waits = h.waits;
    has_lock = h.has_lock;
    full = h.full;
  }
  Receive-IsDeadlocked m (handed_on k e) h = record {
    waits = h.waits;
    has_lock = h.has_lock;
    full = h.full;
  }

  Reach-IsDeadlocked : (m : M) {s t : Stream M} → Reach s t → IsDeadlocked m s → IsDeadlocked m t
  Reach-IsDeadlocked m here h = h
  Reach-IsDeadlocked m (then r (publish p)) h = Publish-IsDeadlocked m p (Reach-IsDeadlocked m r h)
  Reach-IsDeadlocked m (then r (copy c)) h = Copy-IsDeadlocked m c (Reach-IsDeadlocked m r h)
  Reach-IsDeadlocked m (then r (receive c)) h = Receive-IsDeadlocked m c (Reach-IsDeadlocked m r h)

  -- The hub's goroutine is in Send, and the publisher has filled the channel up to `n` messages.
  record IsFilled (m : M) (n : ℕ) (s : Stream M) : Type 0 where
    busy : s.copier ≡ sending m
    free : s.publisher ≡ outside
    open_still : s.subscribed ≡ true
    filled : length s.queue ≡ n

  fill : (m : M) (n : ℕ) → n ≤ capacity → (s : Stream M) × Reach begin s × IsFilled m n s
  fill m zero h = (
    _,
    then (then (then here (publish (lock m refl refl))) (publish (send m refl (omega arith))))
        (copy (take m [] refl refl)),
    record { busy = refl; free = refl; open_still = refl; filled = refl },
  )
  fill m (suc n) h =
      let (s, r, v) = fill m n (omega (arith, h)) in
      (
        _,
        then (then r (publish (lock m v.free v.open_still)))
            (publish (send m refl (omega (arith, v.filled, h)))),
        record {
          busy = v.busy;
          free = refl;
          open_still = v.open_still;
          filled = omega (arith, v.filled, length-append s.queue (m ∷ []));
        },
      )

  -- With any message, the goroutines of a subscription can come to a deadlock, and from then on,
  -- whatever else runs, RFUnsubscribe waits for the lock, and RFPublish never gives it back: the
  -- publisher that has it waits for room in a channel that nothing empties any more.
  pub reach_deadlock :
      (m : M)
      → (s : Stream M) × Reach begin s
        × IsDeadlocked m s
        × ((t : Stream M) → Reach s t → IsDeadlocked m t)
  reach_deadlock m =
      let (s, r, v) = fill m capacity (omega arith) in
      let stuck : IsDeadlocked m (record s { publisher = locked m; copier = unsubscribing }) =
        record { waits = refl; has_lock = refl; full = omega (arith, v.filled) } in
      (
        _,
        then (then r (publish (lock m v.free v.open_still))) (copy (failed m v.busy)),
        stuck,
        λ t r'. Reach-IsDeadlocked m r' stuck,
      )
