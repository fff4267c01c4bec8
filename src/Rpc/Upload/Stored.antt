-- ===== src/Rpc/Upload/Stored.antt =====
-- The values that a client uploads are stored in order, in whatever order the goroutines run.
use widuino.Base.{◌≤◌, List, [], ◌∷◌, ◌++◌, length, length-append, append_assoc, Bool, true, false}
use widuino.Base.{◌≡◌, refl, sym, ap, ◌∙◌, arith}
use widuino.Base.Int.{ℤ}
use widuino.Rpc.Upload.{
  Sender, looping, stopped, Upload, upload_capacity, begin_upload, Feed, give, close_input, send,
  send_error, end_of_input, Store, receive, end_of_file, receive_error, UploadReach, here, feed,
  store,
}

module _ {V D : Type 0} (put : ℤ → V → D → D) where
  abbrev pub values : List (ℤ × V) → List V
  values [] = []
  values ((now, v) ∷ xs) = v ∷ values xs

  abbrev pub all_put : List (ℤ × V) → D → D
  all_put [] db = db
  all_put ((now, v) ∷ xs) db = all_put xs (put now v db)

  -- Until an error, what is left is in the channel.
  abbrev pub Unsent : Sender → List V → List V → Type 0
  Unsent looping left queue = left ≡ queue
  Unsent stopped left queue = Unit

  -- A connection is closed after everything has been sent.
  abbrev pub Closed : Bool → List V → Bool → Sender → Type 0
  Closed false left closed c = Unit
  Closed true left closed c = (left ≡ []) × (closed ≡ true) × (c ≡ stopped)

  -- The database has been given the values of `stored`, in order, and these are the first of what the
  -- client has put into its channel; the rest is on the connection and then `left`.
  pub record IsStored (db : D) (s : Upload V D) : Type 0 where
    pub left : List V
    pub all : (values s.stored ++ s.pipe) ++ left ≡ s.given
    pub in_db : s.db ≡ all_put s.stored db
    pub unsent : Unsent s.sender left s.queue
    pub closed : Closed s.pipe_closed left s.input_closed s.sender
    pub bounded : length s.queue ≤ upload_capacity

  values-snoc :
      (xs : List (ℤ × V)) (now : ℤ) (v : V) → values (xs ++ ((now, v) ∷ [])) ≡ values xs ++ (v ∷ [])
  values-snoc [] now v = refl
  values-snoc ((n, w) ∷ xs) now v = ap (◌∷◌ w) (values-snoc xs now v)

  all_put-snoc :
      (xs : List (ℤ × V)) (now : ℤ) (v : V) (db : D)
      → all_put (xs ++ ((now, v) ∷ [])) db ≡ put now v (all_put xs db)
  all_put-snoc [] now v db = refl
  all_put-snoc ((n, w) ∷ xs) now v db = all_put-snoc xs now v (put n w db)

  Unsent-snoc :
      (c : Sender) (left queue : List V) (v : V)
      → Unsent c left queue
      → Unsent c (left ++ (v ∷ [])) (queue ++ (v ∷ []))
  Unsent-snoc looping left queue v e = ap (λ l. l ++ (v ∷ [])) e
  Unsent-snoc stopped left queue v e = tt

  Closed-input :
      (left : List V) (closed : Bool) (c : Sender) (b : Bool)
      → closed ≡ false
      → Closed b left closed c
      → b ≡ false
  Closed-input left closed c false e h = refl
  Closed-input left closed c true e h = absurd (cc (e, h.1))

  Closed-looping :
      (left : List V) (closed : Bool) (c : Sender) (b : Bool)
      → c ≡ looping
      → Closed b left closed c
      → b ≡ false
  Closed-looping left closed c false e h = refl
  Closed-looping left closed c true e h = absurd (cc (e, h.2))

  Feed-IsStored : (db : D) {s t : Upload V D} → Feed put s t → IsStored db s → IsStored db t
  Feed-IsStored db {s} (give v o room) h = record {
    left = h.left ++ (v ∷ []);
    all =
        sym (append_assoc (values s.stored ++ s.pipe) h.left (v ∷ []))
        ∙ ap (λ l. l ++ (v ∷ [])) h.all;
    in_db = h.in_db;
    unsent = Unsent-snoc s.sender h.left s.queue v h.unsent;
    closed = rw (Closed-input h.left s.input_closed s.sender s.pipe_closed o h.closed) tt;
    bounded = omega (arith, room, length-append s.queue (v ∷ []));
  }
  Feed-IsStored db {s} (close_input o) h = record {
    left = h.left;
    all = h.all;
    in_db = h.in_db;
    unsent = h.unsent;
    closed = rw (Closed-input h.left s.input_closed s.sender s.pipe_closed o h.closed) tt;
    bounded = h.bounded;
  }
  Feed-IsStored db {s} (send v q e eq) h =
      let at : h.left ≡ s.queue = (rw e at h.unsent) in
      record {
        left = q;
        all =
            ap (λ l. l ++ q) (sym (append_assoc (values s.stored) s.pipe (v ∷ [])))
            ∙ append_assoc (values s.stored ++ s.pipe) (v ∷ []) q
            ∙ ap (λ l. (values s.stored ++ s.pipe) ++ l) (sym eq ∙ sym at)
            ∙ h.all;
        in_db = h.in_db;
        unsent = rw e refl;
        closed = rw (Closed-looping h.left s.input_closed s.sender s.pipe_closed e h.closed) tt;
        bounded = omega (arith, h.bounded, (ap length eq));
      }
  Feed-IsStored db {s} (send_error v q e eq) h = record {
    left = h.left;
    all = h.all;
    in_db = h.in_db;
    unsent = tt;
    closed = rw (Closed-looping h.left s.input_closed s.sender s.pipe_closed e h.closed) tt;
    bounded = omega (arith, h.bounded, (ap length eq));
  }
  Feed-IsStored db {s} (end_of_input e eq o) h =
      let at : h.left ≡ s.queue = (rw e at h.unsent) in
      record {
        left = h.left;
        all = h.all;
        in_db = h.in_db;
        unsent = tt;
        closed = (at ∙ eq, o, refl);
        bounded = h.bounded;
      }

  Store-IsStored : (db : D) {s t : Upload V D} → Store put s t → IsStored db s → IsStored db t
  Store-IsStored db {s} (receive now v p e eq) h = record {
    left = h.left;
    all =
        ap (λ l. (l ++ p) ++ h.left) (values-snoc s.stored now v)
        ∙ ap (λ l. l ++ h.left) (append_assoc (values s.stored) (v ∷ []) p)
        ∙ ap (λ l. (values s.stored ++ l) ++ h.left) (sym eq)
        ∙ h.all;
    in_db = ap (put now v) h.in_db ∙ sym (all_put-snoc s.stored now v db);
    unsent = h.unsent;
    closed = h.closed;
    bounded = h.bounded;
  }
  Store-IsStored db {s} (end_of_file e eq o) h = record {
    left = h.left;
    all = h.all;
    in_db = h.in_db;
    unsent = h.unsent;
    closed = h.closed;
    bounded = h.bounded;
  }
  Store-IsStored db {s} (receive_error e) h = record {
    left = h.left;
    all = h.all;
    in_db = h.in_db;
    unsent = h.unsent;
    closed = h.closed;
    bounded = h.bounded;
  }

  UploadReach-IsStored :
      (db : D) {s t : Upload V D} → UploadReach put s t → IsStored db s → IsStored db t
  UploadReach-IsStored db here h = h
  UploadReach-IsStored db (feed r f) h = Feed-IsStored db f (UploadReach-IsStored db r h)
  UploadReach-IsStored db (store r f) h = Store-IsStored db f (UploadReach-IsStored db r h)

  -- In whatever order the goroutines run from the start of an upload, and whether the connection
  -- fails or not: the database has been given, in order and once, the first of the values that the
  -- client put into its channel; the rest is on the connection in order and, until an error, in the
  -- channel, which holds 10 values at most; and when the connection has been closed, nothing is left.
  pub upload-IsStored :
      (db : D) (t : Upload V D) → UploadReach put (begin_upload db) t → IsStored db t
  upload-IsStored db t r = UploadReach-IsStored db r (record {
    left = [];
    all = refl;
    in_db = refl;
    unsent = refl;
    closed = tt;
    bounded = omega arith;
  })
