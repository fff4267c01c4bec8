-- ===== src/LogWriter/Laws.antt =====
-- hub/log_writer.go: every message is logged in the file of its day.
use widuino.Base.{
  ℕ, List, [], ◌∷◌, ◌++◌, Option, none, some, Bool, true, false, ◌≡◌, ◌⊎◌, refl, sym, ap, ap₂, ◌∙◌,
  inl, inr, Bool-cases, if◌then◌else◌,
}
use widuino.Base.Dict.{bytes_same, bytes_same_iff}
use widuino.LogWriter.{
  LogState, no_file, Logged, file_name, log_line, log_opened, log_written, log_message,
  log_messages,
}

-- A name is kept only for the file that is open.
abbrev IsOpen : LogState → Type 0
IsOpen st = (st.log_name ≡ []) ⊎ (st.log_fd ≡ some st.log_name)

-- The lines that can be written, each with the file of its day.
abbrev pub lines : List Logged → List (List ℕ × List ℕ)
lines [] = []
lines (x ∷ xs) =
    let rest = lines xs in
    if x.writes then (file_name x.day, log_line x.time x.message) ∷ rest else rest

log_opened-fd :
    (opens : List ℕ → Bool) (day : List ℕ) (st : LogState)
    → ((name : List ℕ) → opens name ≡ true)
    → IsOpen st
    → (log_opened opens (file_name day) st).log_fd ≡ some (file_name day)
unfolding log_opened file_name
log_opened-fd opens day st all v = elim (Bool-cases (bytes_same (file_name day) st.log_name)) [
  | inr other ↦ rw (other, all (file_name day))
  | inl same ↦
      let e : file_name day ≡ st.log_name = (bytes_same_iff (file_name day) st.log_name).0 same in
      elim v [ inl closed ↦ cc (e ∙ closed) | inr held ↦ rw same (held ∙ ap some (sym e)) ]
]

log_opened-IsOpen :
    (opens : List ℕ → Bool) (name : List ℕ) (st : LogState)
    → IsOpen st
    → IsOpen (log_opened opens name st)
unfolding log_opened
log_opened-IsOpen opens name st v = elim (Bool-cases (bytes_same name st.log_name)) [
  | inl same ↦ rw same v
  | inr other ↦ elim (Bool-cases (opens name)) [
    | inl opened ↦ rw (other, opened) (inr refl)
    | inr refused ↦ rw (other, refused) (inl refl)
  ]
]

log_written-IsOpen :
    (writes : Bool) (line : List ℕ) (st : LogState) (f : Option (List ℕ))
    → IsOpen st
    → IsOpen (log_written writes line st f).0
log_written-IsOpen writes line st none v = inl refl
log_written-IsOpen true line st (some f) v = v
log_written-IsOpen false line st (some f) v = inl refl

log_written-lines :
    (x : Logged) (st : LogState)
    → (log_written x.writes (log_line x.time x.message) st (some (file_name x.day))).1
      ≡ lines (x ∷ [])
log_written-lines x st = elim (Bool-cases x.writes) [ inl fine ↦ rw fine | inr failed ↦ rw failed ]

lines-cons : (x : Logged) (xs : List Logged) → lines (x ∷ xs) ≡ lines (x ∷ []) ++ lines xs
lines-cons x xs = elim (Bool-cases x.writes) [ inl fine ↦ rw fine | inr failed ↦ rw failed ]

log_messages-from :
    (opens : List ℕ → Bool) (st : LogState) (xs : List Logged)
    → ((name : List ℕ) → opens name ≡ true)
    → IsOpen st
    → (log_messages opens st xs).1 ≡ lines xs
unfolding log_messages log_message
log_messages-from opens st [] all v = refl
log_messages-from opens st (x ∷ xs) all v =
    let st' = log_opened opens (file_name x.day) st in
    let fd = log_opened-fd opens x.day st all v in
    let next =
      log_messages-from opens (log_written x.writes (log_line x.time x.message) st' st'.log_fd).0 xs
        all
        (log_written-IsOpen x.writes (log_line x.time x.message) st' st'.log_fd
          (log_opened-IsOpen opens (file_name x.day) st v)) in
    ap₂ (◌++◌)
      (ap (λ f. (log_written x.writes (log_line x.time x.message) st' f).1) fd
        ∙ log_written-lines x st')
      next
    ∙ sym (lines-cons x xs)

-- Where log files can be opened, the log writer puts every message on a line in the file of its day,
-- in order, over changes of the day and after failed writes; only the messages whose own write fails
-- are missing.
pub log_messages-lines :
    (opens : List ℕ → Bool) (xs : List Logged)
    → ((name : List ℕ) → opens name ≡ true)
    → (log_messages opens no_file xs).1 ≡ lines xs
log_messages-lines opens xs all = log_messages-from opens no_file xs all (inl refl)
