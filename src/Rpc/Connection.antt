-- ===== src/Rpc/Connection.antt =====
-- hub/chansrv.go, `handleRequests`, and gears/chancli.go, `Dial`, `Close` and `pinger`: a connection
-- from its start to its end. What the network does is an argument.
pub mod Pipelined
use widuino.Base.{ℕ, zero, suc, List, [], ◌∷◌, ◌++◌, Option, none, some, Bool, true, false}
use widuino.Gears.{SensorInfo, Request, Reply}
use widuino.Database.Failure.{DbError}
use widuino.Rpc.{Effect, Fatal, Outcome, handle_request}
use widuino.Rpc.Client.{Answer, ClientError, do_echo}

-- Why the hub closes a connection: there is no main channel, or a request was fatal.
pub data Closing : Type 0 where
  no_main_channel : Closing
  by_request : Fatal → Closing

-- What has been done and replied over the loop; `closing` is `none` while it waits for a request.
pub record Served : Type 0 where
  pub effects : List Effect
  pub replies : List (ℕ × Reply)
  pub closing : Option Closing

abbrev pub reply_list : Option (ℕ × Reply) → List (ℕ × Reply)
reply_list none = []
reply_list (some r) = r ∷ []

abbrev pub and_next : List Effect → List (ℕ × Reply) → Option Fatal → Served → Served
and_next effects replies (some e) rest = record {
  effects = effects;
  replies = replies;
  closing = some (by_request e);
}
and_next effects replies none rest = record {
  effects = effects ++ rest.effects;
  replies = replies ++ rest.replies;
  closing = rest.closing;
}

module _ (get_info : List ℕ → SensorInfo × Option DbError) (send : ℕ → Reply → Bool) where
  -- The loop, on what Receive returns.
  unfoldable pub request_loop : List (Option Request) → Served
  request_loop [] = record { effects = []; replies = []; closing = none }
  request_loop (r ∷ rs) =
      let out = handle_request get_info send r in
      and_next out.effects (reply_list out.replied) out.fatal (request_loop rs)

  unfoldable pub handle_requests : Bool → List (Option Request) → Served
  handle_requests false rs = record { effects = []; replies = []; closing = some no_main_channel }
  handle_requests true rs = request_loop rs

-- The errors of Dial.
pub data DialError : Type 0 where
  no_connection no_transport no_channel : DialError
  initial_echo : ClientError → DialError

-- The client's end: whether the connection is open and whether the pinger has been started.
pub record Dialed : Type 0 where
  pub error : Option DialError
  pub conn_open : Bool
  pub pinging : Bool

abbrev pub not_dialed : DialError → Dialed
not_dialed e = record { error = some e; conn_open = false; pinging = false }

-- After the first echo; `none` is its panic.
abbrev pub after_echo : Option (Option ClientError) → Option Dialed
after_echo none = none
after_echo (some (some e)) = some (not_dialed (initial_echo e))
after_echo (some none) = some (record { error = none; conn_open = true; pinging = true })

-- How far the network lets Dial come.
pub data Network : Type 0 where
  refused no_spdy no_send_channel connected : Network

-- The pinger while it runs, and after an echo that failed, with the connection closed.
pub data Pinger : Type 0 where
  running panicked : Pinger
  closed : ClientError → Pinger

module _ {T : Type 0} (call : Request → T → Answer × T) (c : ℕ) where
  unfoldable pub dial : Network → T → Option Dialed × T
  dial refused t = (some (not_dialed no_connection), t)
  dial no_spdy t = (some (not_dialed no_transport), t)
  dial no_send_channel t = (some (not_dialed no_channel), t)
  dial connected t = let (answer, t') = do_echo call c t in (after_echo answer, t')

  abbrev pub ping_again : (T → Pinger × T) → Option (Option ClientError) × T → Pinger × T
  ping_again rest (none, t) = (panicked, t)
  ping_again rest (some (some e), t) = (closed e, t)
  ping_again rest (some none, t) = rest t

  -- The first `n` rounds of the pinger.
  unfoldable pub pinger : ℕ → T → Pinger × T
  pinger zero t = (running, t)
  pinger (suc n) t = ping_again (pinger n) (do_echo call c t)
