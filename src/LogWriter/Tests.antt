-- ===== src/LogWriter/Tests.antt =====
-- The log writer on two days.
use widuino.Base.{List, [], ◌∷◌, true, false, ◌≡◌, refl}
use widuino.Gears.{RfMessage}
use widuino.Database.Messages.{no_message}
use widuino.LogWriter.{no_file, Logged, log_line, log_messages, file_name}
use widuino.LogWriter.Laws.{log_messages-lines}

abbrev message : RfMessage
message = record no_message { group = 212; node = 3; kind = 4; payload = 71 ∷ 69 ∷ [] }

abbrev days : List Logged
days =
    record { time = b'1' ∷ []; day = b'a' ∷ []; writes = true; message = message }
    ∷ record { time = b'2' ∷ []; day = b'a' ∷ []; writes = false; message = message }
    ∷ record { time = b'3' ∷ []; day = b'b' ∷ []; writes = true; message = message }
    ∷ []

log_messages-lines_example :
    (log_messages (λ name. true) no_file days).1
    ≡ (file_name (b'a' ∷ []), log_line (b'1' ∷ []) message)
      ∷ (file_name (b'b' ∷ []), log_line (b'3' ∷ []) message)
      ∷ []
log_messages-lines_example = log_messages-lines (λ name. true) days (λ name. refl)
