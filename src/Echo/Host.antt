-- ===== src/Echo/Host.antt =====
-- What the servers of tcp/c/echo change outside their own memory: the descriptors that they hold
-- open, and the bytes that `write` takes from them. The listening socket stays open throughout and is left out.
use sys_snippets.Common.{
  ℕ, ◌+◌, ◌≡◌, List, [], ◌∷◌, ◌++◌, Bool, Option, none, some, erase, count, tally, if◌then◌else◌,
  arith,
}
use sys_snippets.Echo.Line.{
  Read, Echoed, undefined, blocks, returned, plus_one, zero_ret, minus_one, handle_echo,
}

pub record Host : Type 0 where
  pub open_fds : List ℕ
  pub sent : List (ℕ × List ℕ)

abbrev pub opened : ℕ → Host → Host
opened fd h = record h { open_fds = fd ∷ h.open_fds }

abbrev pub close : ℕ → Host → Host
close fd h = record h { open_fds = erase fd h.open_fds }

-- What `accept` returns: below 0 with EINTR, below 0 with another error, or a descriptor.
pub data Accept : Type 0 where
  interrupted : Accept
  refused : Accept
  accepted : ℕ → Accept

-- The answers to the calls for one client: whether `getpeername` succeeds, whether `write` does,
-- and what `read` returns.
pub record Talk : Type 0 where
  pub named : Bool
  pub wrote : Bool
  pub reads : List Read

-- What serving a client comes to: the program exits, its behaviour is undefined, it waits, the
-- client stays, or the client's connection is closed.
pub data Served : Type 0 where
  exits : Served
  faults : Served
  waits : Served
  stays : Host → Served
  leaves : Host → Served

-- `ret < 0` and `ret == 0` close the connection, `ret > 0` keeps it.
abbrev pub settle : ℕ → Host → Echoed → Served
settle fd h undefined = faults
settle fd h blocks = waits
settle fd h (returned plus_one out) = stays (record h { sent = h.sent ++ ((fd, out) ∷ []) })
settle fd h (returned zero_ret out) = leaves (close fd h)
settle fd h (returned minus_one out) = leaves (close fd h)

-- The body of the service loop for one ready client: `getpeername`, `handle_echo`, the three tests.
unfoldable pub serve_client : Talk → ℕ → Host → Served
serve_client talk fd h =
    if talk.named then settle fd h (handle_echo talk.wrote talk.reads) else exits

-- How often a descriptor stands in an array of clients, where -1 is `none`.
abbrev pub holds : ℕ → Option ℕ → ℕ
holds a none = 0
holds a (some fd) = tally a fd

abbrev pub uses : ℕ → List (Option ℕ) → ℕ
uses a [] = 0
uses a (c ∷ cs) = holds a c + uses a cs

-- Each open descriptor stands in exactly one place of the array, and each of the array is open.
abbrev pub Accounts : Host → List (Option ℕ) → Type 0
Accounts h cs = (a : ℕ) → count a h.open_fds ≡ uses a cs

-- A client that stays leaves the open descriptors as they were.
settle-stays :
    (fd : ℕ) (h : Host) (e : Echoed) {h' : Host}
    → settle fd h e ≡ stays h'
    → h'.open_fds ≡ h.open_fds
settle-stays fd h undefined p = ground arith
settle-stays fd h blocks p = ground arith
settle-stays fd h (returned plus_one out) p = ground arith
settle-stays fd h (returned zero_ret out) p = ground arith
settle-stays fd h (returned minus_one out) p = ground arith

settle-leaves :
    (fd : ℕ) (h : Host) (e : Echoed) {h' : Host}
    → settle fd h e ≡ leaves h'
    → h'.open_fds ≡ erase fd h.open_fds
settle-leaves fd h undefined p = ground arith
settle-leaves fd h blocks p = ground arith
settle-leaves fd h (returned plus_one out) p = ground arith
settle-leaves fd h (returned zero_ret out) p = ground arith
settle-leaves fd h (returned minus_one out) p = ground arith

pub serve_client-stays :
    (talk : Talk) (fd : ℕ) (h : Host) {h' : Host}
    → serve_client talk fd h ≡ stays h'
    → h'.open_fds ≡ h.open_fds
unfolding serve_client
serve_client-stays talk fd h p =
    ground (arith, settle-stays fd h (handle_echo talk.wrote talk.reads))

pub serve_client-leaves :
    (talk : Talk) (fd : ℕ) (h : Host) {h' : Host}
    → serve_client talk fd h ≡ leaves h'
    → h'.open_fds ≡ erase fd h.open_fds
unfolding serve_client
serve_client-leaves talk fd h p =
    ground (arith, settle-leaves fd h (handle_echo talk.wrote talk.reads))
