-- ===== src/Rpc/Streams/Delivery.antt =====
-- A subscription whose connection does not fail delivers everything.
use widuino.Base.{List, [], ◌∷◌, ◌++◌, append-nil, true}
use widuino.Base.{◌≡◌, ◌≢◌, refl, sym, ap, ◌∙◌}
use widuino.Rpc.Streams.{
  Copier, copying, sending, unsubscribing, draining, returned, Receiver, receiving, holding, ended,
  Stream, begin, take, sent, received, handed_on, copy, receive, Reach, here, then,
}
use widuino.Rpc.Streams.Order.{is_copying, held, stream-IsFaithful}

module _ {M : Type 0} where
  pub Reach-trans : {s t u : Stream M} → Reach s t → Reach t u → Reach s u
  Reach-trans r here = r
  Reach-trans r (then q x) = then (Reach-trans r q) x

  -- On from a state, with nothing new published.
  record Onward (s : Stream M) (P : Stream M → Type 0) : Type 0 where
    to : Stream M
    way : Reach s to
    same : to.published ≡ s.published
    there : P to

  -- The hub's goroutine is at its loop with its channel empty, and the client's is not ended.
  record IsSent (s : Stream M) : Type 0 where
    idle : s.copier ≡ copying
    empty : s.queue ≡ []
    alive : s.receiver ≢ ended

  send_queue :
      (q : List M) (s : Stream M)
      → s.copier ≡ copying
      → s.queue ≡ q
      → s.receiver ≢ ended
      → Onward s IsSent
  send_queue [] s e eq h = record {
    to = s;
    way = here;
    same = refl;
    there = record { idle = e; empty = eq; alive = h };
  }
  send_queue (m ∷ q) s e eq h =
      let taken = record s { queue = q; copier = sending m } in
      let o =
        send_queue q (record taken { copier = copying; pipe = s.pipe ++ (m ∷ []) }) refl refl h in
      record {
        to = o.to;
        way = Reach-trans (then (then here (copy (take m q e eq))) (copy (sent m refl))) o.way;
        same = o.same;
        there = o.there;
      }

  send_all :
      (c : Copier M) (s : Stream M)
      → s.copier ≡ c
      → is_copying c ≡ true
      → s.receiver ≢ ended
      → Onward s IsSent
  send_all copying s e v h = send_queue s.queue s e refl h
  send_all (sending m) s e v h =
      let o =
        send_queue s.queue (record s { copier = copying; pipe = s.pipe ++ (m ∷ []) }) refl refl h in
      record {
        to = o.to;
        way = Reach-trans (then here (copy (sent m e))) o.way;
        same = o.same;
        there = o.there;
      }
  send_all unsubscribing s e v h = cc
  send_all draining s e v h = cc
  send_all returned s e v h = cc

  record IsAllThere (s : Stream M) : Type 0 where
    idle : s.copier ≡ copying
    empty : s.queue ≡ []
    at_loop : s.receiver ≡ receiving
    dry : s.pipe ≡ []

  receive_pipe :
      (p : List M) (s : Stream M)
      → s.copier ≡ copying
      → s.queue ≡ []
      → s.receiver ≡ receiving
      → s.pipe ≡ p
      → Onward s IsAllThere
  receive_pipe [] s e eq er ep = record {
    to = s;
    way = here;
    same = refl;
    there = record { idle = e; empty = eq; at_loop = er; dry = ep };
  }
  receive_pipe (m ∷ p) s e eq er ep =
      let got = record s { pipe = p; receiver = holding m } in
      let o =
        receive_pipe p (record got { receiver = receiving; delivered = s.delivered ++ (m ∷ []) }) e
          eq refl refl in
      record {
        to = o.to;
        way =
            Reach-trans
              (then (then here (receive (received m p er ep))) (receive (handed_on m refl))) o.way;
        same = o.same;
        there = o.there;
      }

  receive_all : (r : Receiver M) (s : Stream M) → s.receiver ≡ r → IsSent s → Onward s IsAllThere
  receive_all receiving s e v = receive_pipe s.pipe s v.idle v.empty e refl
  receive_all (holding m) s e v =
      let o =
        receive_pipe s.pipe (record s { receiver = receiving; delivered = s.delivered ++ (m ∷ []) })
          v.idle v.empty refl refl in
      record {
        to = o.to;
        way = Reach-trans (then here (receive (handed_on m e))) o.way;
        same = o.same;
        there = o.there;
      }
  receive_all ended s e v = absurd (v.alive e)

  -- From any state of a subscription in which neither goroutine has met an error, the two can run on
  -- until the client has been delivered exactly what had been published.
  stream_can_deliver :
      (s : Stream M)
      → Reach begin s
      → is_copying s.copier ≡ true
      → s.receiver ≢ ended
      → (t : Stream M) × Reach s t × (t.delivered ≡ s.published)
  stream_can_deliver s r v h =
      let o = send_all s.copier s refl v h in
      let l = receive_all o.to.receiver o.to refl o.there in
      let t = l.to in
      let way = Reach-trans o.way l.way in
      let f = stream-IsFaithful t (Reach-trans r way) in
      let at : f.left ≡ t.queue = (rw l.there.idle at f.remains) in
      let none_left : f.left ≡ [] = at ∙ l.there.empty in
      let none_held : held t.receiver ++ t.pipe ≡ [] = rw (l.there.at_loop, l.there.dry) refl in
      (
        t,
        way,
        sym (append-nil t.delivered)
            ∙ ap (λ x. t.delivered ++ x) (sym none_held)
            ∙ sym (append-nil (t.delivered ++ (held t.receiver ++ t.pipe)))
            ∙ ap (λ x. (t.delivered ++ (held t.receiver ++ t.pipe)) ++ x) (sym none_left)
            ∙ f.all
            ∙ l.same
            ∙ o.same,
      )
