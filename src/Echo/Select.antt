-- ===== src/Echo/Select.antt =====
-- The main loop of tcp/c/echo/s_select.c. `clients` is an array of MAXCLIENTS descriptors, -1 for
-- `none`. A round takes the answers of its calls as arguments.
pub mod Laws
pub mod Rounds
use mathlib.Core.List.{filter}
use sys_snippets.Common.{
  ℕ, ◌+◌, List, [], ◌∷◌, Bool, true, false, ◌||◌, Option, none, some, ltb, ◌==◌, if◌then◌else◌,
}
use sys_snippets.Echo.Host.{
  Host, opened, close, Accept, interrupted, refused, accepted, Talk, Served, exits, faults, waits,
  stays, leaves, serve_client,
}

-- `int clients[MAXCLIENTS]`
abbrev pub Clients : Type 0
Clients = List (Option ℕ)

pub record Server : Type 0 where
  pub listenfd : ℕ
  pub clients : Clients
  pub host : Host

-- An `fd_set`: FD_SET adds a descriptor, FD_ISSET looks for one.
unfoldable pub is_set : ℕ → List ℕ → Bool
is_set fd [] = false
is_set fd (x ∷ xs) = fd == x || is_set fd xs

-- What the loop over the clients has made of `rset` and `max`.
pub record Watch : Type 0 where
  pub rset : List ℕ
  pub max : ℕ

unfoldable pub watch_clients : Clients → Watch → Watch
watch_clients [] w = w
watch_clients (none ∷ cs) w = watch_clients cs w
watch_clients (some fd ∷ cs) w =
    watch_clients cs (record { rset = fd ∷ w.rset; max = if ltb w.max fd then fd else w.max })

-- `FD_ZERO(&rset); FD_SET(listenfd, &rset); max = listenfd;` and the loop. `select` is asked about
-- the descriptors of `rset` below `max + 1`.
unfoldable pub watch : Server → Watch
unfolding watch_clients
watch s = watch_clients s.clients (record { rset = s.listenfd ∷ []; max = s.listenfd })

-- What `select` returns: -1 with EINTR, -1 with another error, 0, or a positive number with the
-- descriptors that it leaves in `rset`.
pub data Selected : Type 0 where
  signalled : Selected
  error : Selected
  timeout : Selected
  ready : List ℕ → Selected

-- The search for a free place: `getpeername` fails, a place is taken, or the queue is full.
pub data Seat : Type 0 where
  no_name : Seat
  seated : Clients → Seat
  full : Seat

abbrev pub behind : ℕ → Seat → Seat
behind used no_name = no_name
behind used (seated cs) = seated (some used ∷ cs)
behind used full = full

unfoldable pub seat : Bool → ℕ → Clients → Seat
seat named fd [] = full
seat named fd (none ∷ cs) = if named then seated (some fd ∷ cs) else no_name
seat named fd (some used ∷ cs) = behind used (seat named fd cs)

-- What a pass over the clients comes to.
pub data Pass : Type 0 where
  exit_pass : Pass
  undefined_pass : Pass
  waiting_pass : Pass
  done : Clients → Host → Pass

abbrev pub before : Option ℕ → Pass → Pass
before c exit_pass = exit_pass
before c undefined_pass = undefined_pass
before c waiting_pass = waiting_pass
before c (done cs h) = done (c ∷ cs) h

-- The tests on what `handle_echo` returned; `rest` is the pass over the clients behind.
abbrev pub turn : ℕ → Served → (Host → Pass) → Pass
turn fd exits rest = exit_pass
turn fd faults rest = undefined_pass
turn fd waits rest = waiting_pass
turn fd (stays h) rest = before (some fd) (rest h)
turn fd (leaves h) rest = before none (rest h)

-- The service loop from client `i` on.
unfoldable pub service : List ℕ → (ℕ → Talk) → ℕ → Clients → Host → Pass
service rset talk i [] h = done [] h
service rset talk i (none ∷ cs) h = before none (service rset talk (i + 1) cs h)
service rset talk i (some fd ∷ cs) h =
    let skip = before (some fd) (service rset talk (i + 1) cs h) in
    let go = turn fd (serve_client (talk i) fd h) (λ h'. service rset talk (i + 1) cs h') in
    if is_set fd rset then go else skip

-- The answers to the calls of one round of `for (;;)`.
pub record Answers : Type 0 where
  pub selected : Selected
  pub accept : Accept
  pub named : Bool
  pub talk : ℕ → Talk

-- What a round comes to: the loop goes on, `exit(1)`, undefined behaviour, or a call that waits.
pub data Round : Type 0 where
  next : Server → Round
  exit : Round
  undefined_round : Round
  waiting_round : Round

abbrev pub close_round : Server → Pass → Round
close_round s exit_pass = exit
close_round s undefined_pass = undefined_round
close_round s waiting_pass = waiting_round
close_round s (done cs h) = next (record s { clients = cs; host = h })

unfoldable pub serve_clients : Answers → List ℕ → Server → Round
unfolding service is_set
serve_clients w rset s = close_round s (service rset w.talk 0 s.clients s.host)

abbrev pub take_seat : Answers → List ℕ → ℕ → Server → Seat → Round
take_seat w rset fd s no_name = exit
take_seat w rset fd s (seated cs) =
    serve_clients w rset (record s { clients = cs; host = opened fd s.host })
take_seat w rset fd s full = serve_clients w rset (record s { host = close fd (opened fd s.host) })

-- `accept` on the listening socket; an interrupted one ends the round.
abbrev pub on_accept : Answers → List ℕ → Server → Accept → Round
on_accept w rset s interrupted = next s
on_accept w rset s refused = exit
on_accept w rset s (accepted fd) = take_seat w rset fd s (seat w.named fd s.clients)

abbrev pub on_select : Answers → Server → Selected → Round
on_select w s signalled = next s
on_select w s error = exit
on_select w s timeout = next s
on_select w s (ready rset) =
    if is_set s.listenfd rset then on_accept w rset s w.accept else serve_clients w rset s

-- One round of `for (;;)`.
unfoldable pub round : Answers → Server → Round
unfolding seat serve_clients is_set
round w s = on_select w s w.selected
