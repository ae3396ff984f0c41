-- ===== src/Echo/Poll.antt =====
-- The main loop of tcp/c/echo/s_poll.c. `clients[0]` is the listening socket; `slots` are
-- `clients[1]` to `clients[MAXCLIENTS - 1]`. A round takes the answers of its calls as arguments.
pub mod Laws
pub mod Rounds
pub mod Seats
use sys_snippets.Common.{
  ℕ, zero, suc, ◌+◌, ◌-◌, List, [], ◌∷◌, Bool, true, false, ◌||◌, Option, none, some, map, ◌==◌,
  if◌then◌else◌,
}
use sys_snippets.Echo.Host.{
  Host, opened, close, Accept, interrupted, refused, accepted, Talk, Served, exits, faults, waits,
  stays, leaves, serve_client,
}

-- The bits of `revents` that the program reads, and whether another one is set.
pub record Revents : Type 0 where
  pub pollin : Bool
  pub pollerr : Bool
  pub other : Bool

abbrev pub quiet : Revents
quiet = record { pollin = false; pollerr = false; other = false }

-- `struct pollfd`: `fd` is -1 for `none`; `asked` says that `events` is POLLIN.
pub record Slot : Type 0 where
  pub fd : Option ℕ
  pub asked : Bool
  pub revents : Revents

abbrev pub fd_of : Slot → Option ℕ
fd_of s = s.fd

pub record Server : Type 0 where
  pub slots : List Slot
  pub host : Host

-- `for (i = 1; i < MAXCLIENTS; i++) if (clients[i].fd != -1) max = i;`
unfoldable pub last_used : ℕ → List Slot → ℕ → ℕ
last_used i [] max = max
last_used i (s ∷ ss) max = last_used (i + 1) ss (elim s.fd [ none ↦ max | some fd ↦ i ])

-- `poll(clients, max + 1, 5000)` writes `revents` of the first `max` slots.
unfoldable pub report : ℕ → List Revents → List Slot → List Slot
report zero rs ss = ss
report (suc n) [] ss = ss
report (suc n) (r ∷ rs) [] = []
report (suc n) (r ∷ rs) (s ∷ ss) = record s { revents = r } ∷ report n rs ss

-- What `poll` returns: -1 with EINTR, -1 with another error, or the number of ready entries, with
-- what it writes for the listening socket and for the slots.
pub data Polled : Type 0 where
  signalled : Polled
  error : Polled
  counted : ℕ → Revents → List Revents → Polled

-- The search for a free slot: `getpeername` fails, a slot is taken, or the queue is full.
pub data Seat : Type 0 where
  no_name : Seat
  seated : List Slot → Seat
  full : Seat

abbrev pub behind : Slot → Seat → Seat
behind s no_name = no_name
behind s (seated ss) = seated (s ∷ ss)
behind s full = full

unfoldable pub seat : Bool → ℕ → List Slot → Seat
seat named fd [] = full
seat named fd (s ∷ ss) =
    let rest = behind s (seat named fd ss) in
    elim s.fd [
      | none ↦ if named then seated (record s { fd = some fd; asked = true } ∷ ss) else no_name
      | some used ↦ rest
    ]

-- What a pass over the slots comes to.
pub data Pass : Type 0 where
  exit_pass : Pass
  undefined_pass : Pass
  waiting_pass : Pass
  done : List Slot → Host → Pass

abbrev pub before : Slot → Pass → Pass
before s exit_pass = exit_pass
before s undefined_pass = undefined_pass
before s waiting_pass = waiting_pass
before s (done ss h) = done (s ∷ ss) h

-- `if (!(clients[i].revents & (POLLIN | POLLERR))) continue;`
abbrev pub is_ready : Slot → Bool
is_ready s = s.revents.pollin || s.revents.pollerr

-- The tests on what `handle_echo` returned; `go` is the code behind them.
abbrev pub turn : Slot → Served → (Slot → Host → Pass) → Pass
turn s exits go = exit_pass
turn s faults go = undefined_pass
turn s waits go = waiting_pass
turn s (stays h) go = go s h
turn s (leaves h) go = go (record s { fd = none }) h

-- The service loop from slot `i` on, with `count` ready entries still to be found.
unfoldable pub service : (ℕ → Talk) → ℕ → ℕ → List Slot → Host → Pass
service talk i count [] h = done [] h
service talk i count (s ∷ ss) h =
    let skip = before s (service talk (i + 1) count ss h) in
    let go = λ (s' : Slot) (h' : Host).
      let rest = before s' (service talk (i + 1) (count - 1) ss h') in
      if count - 1 == 0 then done (s' ∷ ss) h' else rest in
    elim s.fd [
      | none ↦ skip
      | some fd ↦ if is_ready s then turn s (serve_client (talk i) fd h) go else skip
    ]

-- The answers to the calls of one round of `for (;;)`.
pub record Answers : Type 0 where
  pub polled : Polled
  pub accept : Accept
  pub named : Bool
  pub talk : ℕ → Talk

-- What a round comes to: the loop goes on, `exit(1)`, undefined behaviour, or a call that waits.
pub data Round : Type 0 where
  next : Server → Round
  exit : Round
  undefined_round : Round
  waiting_round : Round

abbrev pub close_round : Pass → Round
close_round exit_pass = exit
close_round undefined_pass = undefined_round
close_round waiting_pass = waiting_round
close_round (done ss h) = next (record { slots = ss; host = h })

-- From `--count` on, and the service loop.
unfoldable pub serve_rest : Answers → ℕ → Server → Round
unfolding service
serve_rest w count s = close_round (service w.talk 1 count s.slots s.host)

-- `if (--count == 0) continue;` behind a new connection.
unfoldable pub count_down : Answers → ℕ → Server → Round
unfolding serve_rest
count_down w count s = if count - 1 == 0 then next s else serve_rest w (count - 1) s

abbrev pub take_seat : Answers → ℕ → ℕ → Server → Seat → Round
take_seat w count fd s no_name = exit
take_seat w count fd s (seated ss) =
    count_down w count (record { slots = ss; host = opened fd s.host })
take_seat w count fd s full = count_down w count (record s { host = close fd (opened fd s.host) })

-- `if (clients[0].revents & POLLIN)`: a new connection.
unfoldable pub new_client : Answers → ℕ → Server → Round
unfolding seat count_down
new_client w count s = elim w.accept [
  | interrupted ↦ next s
  | refused ↦ exit
  | accepted fd ↦ take_seat w count fd s (seat w.named fd s.slots)
]

abbrev pub on_poll : Answers → Server → Polled → Round
on_poll w s signalled = next s
on_poll w s error = exit
on_poll w s (counted n listener answers) =
    let s' = record s { slots = report (last_used 1 s.slots 0) answers s.slots } in
    if n == 0 then next s' else if listener.pollin then new_client w n s' else serve_rest w n s'

-- One round of `for (;;)`.
unfoldable pub round : Answers → Server → Round
unfolding last_used report new_client serve_rest
round w s = on_poll w s w.polled

abbrev pub go_on : Round → (Server → Round) → Round
go_on (next s) k = k s
go_on exit k = exit
go_on undefined_round k = undefined_round
go_on waiting_round k = waiting_round

-- Round after round, until one does not go on.
unfoldable pub rounds : List Answers → Server → Round
unfolding round
rounds [] s = next s
rounds (w ∷ ws) s = go_on (round w s) λ s'. rounds ws s'
