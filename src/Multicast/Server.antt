-- ===== src/Multicast/Server.antt =====
-- `mcast_server` of multicast/c/mcast4.c, with what its calls answer in each round of its loop.
use sys_snippets.Common.{
  ℕ, ◌+◌, ◌≤◌, ◌<◌, ◌≡◌, refl, List, [], ◌∷◌, ◌++◌, Bool, true, false, Option, none, some, ltb,
  ◌==◌, length, take, All, if◌then◌else◌, arith,
}
pub mod Laws

-- What `select` finds, and then `read`: a time-out, an interruption (EINTR), another failure, a socket
-- that is not ready, a read that fails, or the bytes of a datagram.
pub data Round : Type 0 where
  timed_out : Round
  interrupted : Round
  select_failed : Round
  unready : Round
  read_failed : Round
  datagram : List ℕ → Round

-- `faults`, and the datagrams that were read and handed to the printing, oldest first.
pub record Server : Type 0 where
  pub faults : ℕ
  pub received : List (List ℕ)

-- The server waits for the next round, has left its loop, or has written past its buffer.
pub data End : Type 0 where
  waiting : Server → End
  stopped : Server → End
  overrun : End

-- `char buffer[256]`
abbrev pub buffer_size : ℕ
buffer_size = 256

abbrev pub fault : Server → End
fault s = waiting (record s { faults = s.faults + 1 })

-- The round of a `read`, which gave `bytes`; `buffer[len] = '\0'` has come before the tests.
abbrev pub got : List ℕ → Server → End
got bytes s =
    if ltb (length bytes) buffer_size
    then if length bytes == 0
      then fault s
      else waiting (record s { received = s.received ++ (bytes ∷ []) })
    else overrun

-- The body of the `while` loop. A `read` that fails has -1 for `len`.
unfoldable pub serve_round : Round → Server → End
serve_round timed_out s = waiting s
serve_round interrupted s = fault s
serve_round select_failed s = stopped s
serve_round unready s = fault s
serve_round read_failed s = overrun
serve_round (datagram d) s = got (take buffer_size d) s

-- `while (faults < 5)`
unfoldable pub serve : List Round → Server → End
unfolding serve_round
serve [] s = if ltb s.faults 5 then waiting s else stopped s
serve (r ∷ rs) s = elim (ltb s.faults 5) [
  | false ↦ stopped s
  | true ↦ elim (serve_round r s) [
    | waiting t ↦ serve rs t
    | stopped t ↦ stopped t
    | overrun ↦ overrun
  ]
]

abbrev pub new_server : Server
new_server = record { faults = 0; received = [] }

-- none for -1: `bind` or IP_ADD_MEMBERSHIP has failed.
unfoldable pub mcast_server : Bool → Bool → List Round → Option End
unfolding serve
mcast_server bound joined rs =
    let end = serve rs new_server in if bound then if joined then some end else none else none
