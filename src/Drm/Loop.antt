-- ===== src/Drm/Loop.antt =====
-- The `poll` loop of drm-tests/drm_server.c, with what its calls answer in each round. The listening
-- socket stays open throughout and is left out, and so is the entry behind the array `clients` that
-- `poll` is told of.
use sys_snippets.Common.{
  ℕ, ◌+◌, ◌-◌, List, [], ◌∷◌, ◌++◌, Bool, true, false, Option, none, some, ◌==◌, erase, tally,
  if◌then◌else◌,
}
use sys_snippets.Drm.Proto.{Info}
use sys_snippets.Drm.Server.{Call, Answers, State, Reply, replied, undefined_reply, handle}
pub mod Sound
pub mod Isolation
pub mod Setup
mod Tests

-- `clients[i].fd`, -1 being none, and `drm_clients[i]`.
pub record Seat : Type 0 where
  pub fd : Option ℕ
  pub info : Info

-- The variables of `main` that the clients share, the calls that change the display, the sockets of
-- clients that are open, and what was written to them.
pub record Main : Type 0 where
  pub magic : ℕ
  pub command : ℕ
  pub calls : List Call
  pub open_fds : List ℕ
  pub sent : List (ℕ × List ℕ)

-- What a round has for a client: no POLLIN or POLLERR, a failed `read`, the end of the stream, or a
-- message up to its zero byte, with the answers of libdrm, or one that fills `rx_buf` without a zero byte.
pub data Talk : Type 0 where
  quiet : Talk
  broken : Talk
  gone : Talk
  says : List ℕ → Answers → Talk
  floods : Talk

-- `main` goes on, or its behaviour is undefined.
pub data Served : Type 0 where
  goes : List Seat → Main → Served
  faults : Served

abbrev pub behind : Seat → Served → Served
behind s (goes ss m) = goes (s ∷ ss) m
behind s faults = faults

abbrev pub hang_up : ℕ → Main → Main
hang_up fd m = record m { open_fds = erase fd m.open_fds }

abbrev pub state_of : Seat → Main → State
state_of s m = record { magic = m.magic; command = m.command; info = s.info; calls = m.calls }

abbrev pub heard_seat : State → Seat → Seat
heard_seat t s = record s { info = t.info }

-- Behind the `write` of an answer.
abbrev pub heard_main : ℕ → State → List ℕ → Main → Main
heard_main fd t out m = record m {
  magic = t.magic;
  command = t.command;
  calls = t.calls;
  sent = m.sent ++ ((fd, out) ∷ []);
}

-- The answer to a message; `rc` counts down with the messages, and at 0 the loop is left. A number
-- that is below 0 in the code is 0 here: neither comes to 0 again.
abbrev pub on_reply : ℕ → ℕ → Seat → List Seat → Main → (ℕ → Main → Served) → Reply → Served
on_reply fd rc s ss m rest undefined_reply = faults
on_reply fd rc s ss m rest (replied u out) = elim (rc == 1) [
  | true ↦ goes (heard_seat u s ∷ ss) (heard_main fd u out m)
  | false ↦ behind (heard_seat u s) (rest (rc - 1) (heard_main fd u out m))
]

-- The body of the loop for one client; `rest` is what the loop does for those behind it.
unfoldable pub serve_client :
    Option ℕ → ℕ → Talk → Seat → List Seat → Main → (ℕ → Main → Served) → Served
unfolding handle
serve_client none rc t s ss m rest = behind s (rest rc m)
serve_client (some fd) rc quiet s ss m rest = behind s (rest rc m)
serve_client (some fd) rc broken s ss m rest =
    behind (record s { fd = none }) (rest rc (hang_up fd m))
serve_client (some fd) rc gone s ss m rest =
    behind (record s { fd = none }) (rest rc (hang_up fd m))
serve_client (some fd) rc (says rx a) s ss m rest =
    on_reply fd rc s ss m rest (handle a rx (state_of s m))
-- sscanf reads behind the buffer.
serve_client (some fd) rc floods s ss m rest = faults

-- The loop over the clients.
unfoldable pub serve_seats : ℕ → List Talk → List Seat → Main → Served
unfolding serve_client
serve_seats rc ts [] m = goes [] m
serve_seats rc [] (s ∷ ss) m = goes (s ∷ ss) m
serve_seats rc (t ∷ ts) (s ∷ ss) m =
    serve_client s.fd rc t s ss m (λ rc' m'. serve_seats rc' ts ss m')

abbrev pub put_behind : Seat → Option (List Seat) → Option (List Seat)
put_behind s none = none
put_behind s (some ss) = some (s ∷ ss)

abbrev pub seat_at : Option ℕ → ℕ → Seat → List Seat → Option (List Seat) → Option (List Seat)
seat_at none fd s ss rest = some (record s { fd = some fd } ∷ ss)
seat_at (some old) fd s ss rest = put_behind s rest

-- The search for a free slot for the socket `fd`; none if there is no such slot.
abbrev pub seat : ℕ → List Seat → Option (List Seat)
seat fd [] = none
seat fd (s ∷ ss) = seat_at s.fd fd s ss (seat fd ss)

abbrev pub admitted : ℕ → List Seat → Main → Option (List Seat) → Served
admitted fd ss m none = goes ss m
admitted fd ss m (some ss') = goes ss' (record m { open_fds = fd ∷ m.open_fds })

-- `accept` gave a socket: it is seated, or closed if the queue is full.
unfoldable pub admit : ℕ → List Seat → Main → Served
admit fd ss m = admitted fd ss m (seat fd ss)

-- What `poll` and `accept` return: 0, -1, or a number of ready entries with the state of the listening
-- socket (not ready, `accept` fails, a client) and with what the clients have for the program.
pub data Listener : Type 0 where
  idle : Listener
  refused : Listener
  calls_in : ℕ → Listener

pub data Polled : Type 0 where
  timed_out : Polled
  failed : Polled
  ready : ℕ → Listener → List Talk → Polled

-- The loop waits, it is left, or its behaviour is undefined.
pub data End : Type 0 where
  waits : List Seat → Main → End
  leaves : List Seat → Main → End
  crashes : End

abbrev pub served_end : Served → End
served_end (goes ss m) = waits ss m
served_end faults = crashes

-- A new client, and then the messages unless the client was all there was.
abbrev pub welcome : ℕ → List Talk → Served → End
welcome rc ts faults = crashes
welcome rc ts (goes ss m) =
    if rc == 1 then waits ss m else served_end (serve_seats (rc - 1) ts ss m)

unfoldable pub round : Polled → List Seat → Main → End
unfolding serve_seats admit
round timed_out ss m = waits ss m
round failed ss m = leaves ss m
round (ready rc idle ts) ss m = served_end (serve_seats rc ts ss m)
round (ready rc refused ts) ss m = leaves ss m
round (ready rc (calls_in fd) ts) ss m = welcome rc ts (admit fd ss m)

-- `while (running)`, as long as no SIGINT comes.
unfoldable pub serve_rounds : List Polled → List Seat → Main → End
unfolding round
serve_rounds [] ss m = waits ss m
serve_rounds (p ∷ ps) ss m = elim (round p ss m) [
  | waits ss' m' ↦ serve_rounds ps ss' m'
  | leaves ss' m' ↦ leaves ss' m'
  | crashes ↦ crashes
]
